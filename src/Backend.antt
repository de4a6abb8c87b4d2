-- ===== src/Backend.antt =====
-- src/backend/types.rs: the messages that applications exchange, and how they are written as bytes. A `u16` is below
-- 2 ^ 16; `extra` has 30 bytes. The headers of a request are the list of their entries.
pub mod Service
pub mod Framing
pub mod Respects
mod Examples
use rings_node.Base.{
  ℕ, zero, suc, ◌+◌, ◌*◌, ◌/◌, ◌%◌, Option, none, some, String, List, [], ◌∷◌, ◌++◌, length, drop,
  replicate, ltb, ◌==◌, if◌then◌else◌,
}
use rings_node.Error.{Result, ok, err, ◌>>=◌, not_support_message, serialize_error}
use rings_node.VNode.{map_err}

pub data MessageType : Type 0 where
  unknown empty simple_text http_request http_response : MessageType

-- `From<u16> for MessageType`
unfoldable pub type_of_u16 : ℕ → MessageType
type_of_u16 v =
    if v == 1
    then empty
    else if v == 2
    then simple_text
    else if v == 3
    then http_request
    else if v == 4
    then http_response
    else unknown

-- `From<MessageType> for u16`
abbrev pub u16_of_type : MessageType → ℕ
u16_of_type unknown = 0
u16_of_type empty = 1
u16_of_type simple_text = 2
u16_of_type http_request = 3
u16_of_type http_response = 4

-- `data` is `body`.
pub record BackendMessage : Type 0 where
  pub message_type : ℕ
  pub extra : List ℕ
  pub body : List ℕ

-- `BackendMessage::new`
abbrev pub new_message : ℕ → List ℕ → List ℕ → BackendMessage
new_message message_type extra body = record {
  message_type = message_type;
  extra = extra;
  body = body;
}

abbrev pub zeros : ℕ → List ℕ
zeros n = replicate n 0

-- `From<(u16, &[u8])>`
abbrev pub of_pair : ℕ → List ℕ → BackendMessage
of_pair message_type body = new_message message_type (zeros 30) body

-- `to_le_bytes` and `from_le_bytes`
abbrev pub to_le_bytes : ℕ → List ℕ
to_le_bytes t = t % 256 ∷ t / 256 ∷ []

abbrev pub from_le_bytes : List ℕ → ℕ
from_le_bytes (a ∷ b ∷ _) = a + 256 * b
from_le_bytes _ = 0

-- `TryFrom<&[u8]>`
unfoldable pub of_slice : List ℕ → Result BackendMessage
of_slice value =
    if ltb (length value) 32
    then err not_support_message
    else ok (new_message (from_le_bytes value) (zeros 30) (drop 32 value))

-- `From<BackendMessage> for Vec<u8>`
unfoldable pub to_vec : BackendMessage → List ℕ
to_vec v = to_le_bytes v.message_type ++ v.extra ++ v.body

-- `timeout` in milliseconds
pub record HttpRequest : Type 0 where
  pub name : String
  pub method : String
  pub path : String
  pub timeout : ℕ
  pub headers : List (String × String)
  pub body : Option (List ℕ)

pub record HttpResponse : Type 0 where
  pub status : ℕ
  pub headers : List (String × String)
  pub body : Option (List ℕ)

-- `TryFrom<(MessageType, &T)>`, with bincode
unfoldable pub of_data :
    {T : Type 0} → (T → Result (List ℕ)) → MessageType → T → Result BackendMessage
of_data serialize message_type a = do
  bytes ← map_err (serialize a) (err serialize_error)
  ok (new_message (u16_of_type message_type) (zeros 30) bytes)
