-- ===== src/Backend/Service.antt =====
-- `Backend`, `HttpServer` and `TextEndpoint` of src/backend/service: what a node does with a custom message. The HTTP
-- client, bincode, gzip and UTF-8 are the record `Web`, a parameter.
use rings_node.Base.{
  ℕ, ◌-◌, Bool, not, Option, none, some, List, [], ◌∷◌, String, length, drop, ltb, ◌==◌,
  if◌then◌else◌,
}
use rings_node.Error.{
  Result, ok, err, panic, ◌>>=◌ as ◌>>=ᵣ◌, http_request_error, deserialize, json_serialize_error,
  encode, serialize_error, invalid_message, invalid_service, send_message_error,
}
use rings_node.Session.{ok_or}
use rings_node.Relay.{MessageRelay, relay}
use rings_node.Chunk.{Chunk, ChunkMeta, from_bytes}
use rings_node.Transport.{transport_mtu, transport_max_size}
use rings_node.Message.{Message, MaybeEncrypted}
use rings_node.Message.Cipher.{custom}
use rings_node.Payload.{MessagePayload}
use rings_node.Act.{Act, pure, lift, raise, is_ok, done, modify, map_err, or_raise, ◌>>=◌}
use rings_node.Swarm.{Swarm, Env, call}
use rings_node.Swarm.Send.{send_report_message}
use rings_node.Handler.{MessageCallback, decrypt_msg}
use rings_node.Backend.{
  BackendMessage, MessageType, unknown, empty, simple_text, http_request, http_response,
  type_of_u16, u16_of_type, of_pair, of_slice, to_vec, HttpRequest, HttpResponse,
}

-- `BACKEND_MTU` of src/consts.rs
abbrev pub backend_mtu : ℕ
backend_mtu = transport_max_size - transport_mtu

pub record HiddenServerConfig : Type 0 where
  pub name : String
  pub prefix : String

-- What comes back from reqwest: values of headers that are no text count as empty, and `none` is a body that
-- cannot be read.
pub record Response : Type 0 where
  pub status : ℕ
  pub headers : List (String × String)
  pub bytes : Option (List ℕ)

pub record Web (W : Type 0) : Type 0 where
  pub eq_ignore_ascii_case : String → String → Bool
  -- The prefix and the path without the slashes in front, with one between them
  pub url_of : String → String → String
  -- What `http` parses, as its text
  pub parse_uri : String → Option String
  pub parse_method : String → Option String
  pub parse_headers : List (String × String) → Option (List (String × String))
  pub send :
      W
      → (method url : String) → (headers : List (String × String)) → (timeout : ℕ)
      → (body : Option (List ℕ)) → Option Response × W
  pub decode_request : List ℕ → Option HttpRequest
  pub encode_response : HttpResponse → Option (List ℕ)
  pub gzip : List ℕ → Option (List ℕ)
  pub chunk_to_bincode : Chunk → Option (List ℕ)
  pub new_meta : W → ChunkMeta × W
  pub is_utf8 : List ℕ → Bool
  -- `sender.send`, whatever comes of it
  pub broadcast : W → BackendMessage → W

-- The flag, and the message behind it: `array_refs!` panics on less than four bytes; what is no message for the
-- backend gives nothing.
unfoldable pub read_custom : List ℕ → Result (Option BackendMessage)
read_custom [] = panic
read_custom (flag ∷ msg) =
    if ltb (length msg) 3
    then panic
    else if not (flag == 0)
    then ok none
    else elim (of_slice (drop 3 msg)) [ ok m ↦ ok (some m) | err _ ↦ ok none | panic ↦ panic ]

abbrev pub unwrap : {A : Type 0} → Result A → Result A
unwrap (ok a) = ok a
unwrap (err _) = panic
unwrap panic = panic

-- What cannot be read is left.
abbrev pub or_none : {A : Type 0} → Result (Option A) → Result (Option A)
or_none (ok o) = ok o
or_none (err _) = ok none
or_none panic = panic

module _ {W : Type 0} (web : Web W) where
  unfoldable pub find_service : List HiddenServerConfig → String → Option HiddenServerConfig
  find_service [] name = none
  find_service (x ∷ services) name =
      if web.eq_ignore_ascii_case x.name name then some x else find_service services name

  module _ {K Sk S C : Type 0} (env : Env K Sk S C W) (services : List HiddenServerConfig) where
    -- The response, where the request can be sent
    abbrev pub sent : Option Response × W → Result Response × W
    sent (o, w) = (ok_or o (err http_request_error), w)

    unfoldable pub execute : HttpRequest → Act (Swarm K Sk S C W) HttpResponse
    unfolding find_service
    execute request = do
      service ← or_raise (find_service services request.name) invalid_service
      request_url ← lift (ok_or (web.parse_uri (web.url_of service.prefix request.path)) panic)
      method ← lift (ok_or (web.parse_method request.method) panic)
      headers ← lift (ok_or (web.parse_headers request.headers) panic)
      resp ← call (λ w. sent (web.send w method request_url headers request.timeout request.body))
      body ← or_raise resp.bytes http_request_error
      pure (record { status = resp.status; headers = resp.headers; body = some body })

    module _ (ctx : MessagePayload K Message) (back : MessageRelay) where
      unfoldable pub send_chunk_report_message : List ℕ → Act (Swarm K Sk S C W) (Unit {0})
      send_chunk_report_message bytes = do
        msg ← map_err (λ _. invalid_message) (lift (custom env.cipher (1 ∷ 0 ∷ 0 ∷ 0 ∷ bytes) none))
        map_err send_message_error (send_report_message env msg ctx.tx_id back)

      unfoldable pub send_chunks : List Chunk → Act (Swarm K Sk S C W) (Unit {0})
      unfolding send_chunk_report_message
      send_chunks [] = done
      send_chunks (c ∷ chunks) = do
        bytes ← or_raise (web.chunk_to_bincode c) serialize_error
        _ ← send_chunk_report_message bytes
        send_chunks chunks

      -- `ChunkList::from` with new metadata
      abbrev pub cut : List ℕ → Act (Swarm K Sk S C W) (List Chunk)
      cut bytes self =
          let made = web.new_meta self.world in
          (from_bytes backend_mtu made.0 bytes, record self { world = made.1 })

      -- `HttpServer::handle_message`
      unfoldable pub serve : BackendMessage → Act (Swarm K Sk S C W) (Unit {0})
      unfolding execute send_chunks
      serve msg = do
        req ← or_raise (web.decode_request msg.body) deserialize
        resp ← execute req
        json_bytes ← or_raise (web.encode_response resp) json_serialize_error
        resp_bytes ← or_raise (web.gzip json_bytes) encode
        chunks ← cut (to_vec (of_pair (u16_of_type http_response) resp_bytes))
        send_chunks chunks

      -- `TextEndpoint::handle_message`
      abbrev pub read_text : BackendMessage → Act (Swarm K Sk S C W) (Unit {0})
      read_text msg = if web.is_utf8 msg.body then done else raise invalid_message

      unfoldable pub by_type : MessageType → BackendMessage → Act (Swarm K Sk S C W) (Unit {0})
      unfolding serve
      by_type simple_text msg = read_text msg
      by_type http_request msg = serve msg
      by_type unknown msg = done
      by_type empty msg = done
      by_type http_response msg = done

    -- `Backend::custom_message`: in the end the message goes to the receivers of the broadcast.
    unfoldable pub on_custom :
        MessagePayload K Message → MaybeEncrypted (List ℕ) → Act (Swarm K Sk S C W) (Unit {0})
    unfolding by_type read_custom
    on_custom ctx msg = do
      back ← lift (unwrap (relay ctx.relay ctx.relay.destination none))
      found ← λ self. (or_none (decrypt_msg env msg self >>=ᵣ λ m. read_custom m), self)
      elim found [
        | none ↦ done
        | some m ↦ do
          _ ← is_ok (by_type ctx back (type_of_u16 m.message_type) m)
          modify (λ self. record self { world = web.broadcast self.world m })
      ]

    -- The backend as the callback of a node, where a panic counts like an error.
    abbrev pub backend : MessageCallback K Sk S C W
    backend = record {
      on_custom = λ ctx msg self. (on_custom ctx msg self).1;
      on_builtin = λ ctx self. self;
    }
