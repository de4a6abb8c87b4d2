-- ===== src/Encoder.antt =====
-- rings-core/src/message/encoder.rs, and the virtual nodes that rings-core/src/dht/vnode.rs makes of texts and
-- payloads. base58, UTF-8 and the bytes of a text are the record `Base58`, a parameter.
use rings_node.Base.{ℕ, ◌+◌, ◌≡◌, refl, ◌∙◌, subst, Option, some, List, [], ◌∷◌, String}
use rings_node.Error.{
  err≢ok, Result, ok, err, ◌>>=◌, >>=_steps, ok-inj, encode as encode_error, decode as decode_error,
  utf8_encoding,
}
use rings_node.Did.{from_big_uint}
use rings_node.VNode.{
  VirtualNode, Encoded, Codec, relay_message, vnode_of_topic, decode_first, gen_did,
}
use rings_node.Payload.{MessagePayload}
use rings_node.Session.{ok_or}
use rings_node.Session.Found.{ok_or-some}

pub record Base58 : Type 0 where
  pub encode_check : List ℕ → Option String
  pub decode_check : String → Option (List ℕ)
  pub as_bytes : String → List ℕ
  pub from_utf8 : List ℕ → Option String

module _ (b58 : Base58) where
  -- `Encoder` of the kinds of bytes, and of texts
  unfoldable pub encode_bytes : List ℕ → Result Encoded
  encode_bytes bytes = ok_or (b58.encode_check bytes) (err encode_error)

  unfoldable pub encode_text : String → Result Encoded
  unfolding encode_bytes
  encode_text s = encode_bytes (b58.as_bytes s)

  -- `Decoder` of bytes, and of texts
  unfoldable pub decode_bytes : Encoded → Result (List ℕ)
  decode_bytes encoded = ok_or (b58.decode_check encoded) (err decode_error)

  unfoldable pub decode_text : Encoded → Result String
  unfolding decode_bytes
  decode_text encoded = do d ← decode_bytes encoded; ok_or (b58.from_utf8 d) (err decode_error)

  -- `TryFrom<Vec<u8>> for Encoded`
  abbrev pub encoded_of_vec : List ℕ → Result Encoded
  encoded_of_vec a = ok_or (b58.from_utf8 a) (err utf8_encoding)

  module _ (codec : Codec) where
    -- `TryFrom<(String, String)> for VirtualNode`
    unfoldable pub vnode_of_text : String → String → Result VirtualNode
    unfolding encode_text
    vnode_of_text topic s = do
      encoded_message ← encode_text s
      vnode_of_topic codec topic encoded_message

    -- `TryFrom<String> for VirtualNode`
    unfoldable pub vnode_of_name : String → Result VirtualNode
    unfolding vnode_of_text
    vnode_of_name topic = vnode_of_text topic topic

  -- `TryFrom<MessagePayload<T>> for VirtualNode`, with the encoding of payloads
  unfoldable pub vnode_of_payload :
      {K T : Type 0}
      → (MessagePayload K T → Result Encoded)
      → MessagePayload K T
      → Result VirtualNode
  vnode_of_payload encode_payload msg = do
    content ← encode_payload msg
    ok (record { did = from_big_uint (msg.addr + 1); payload = content ∷ []; kind = relay_message })

-- What base58 with its check writes is read back.
abbrev pub ReadsBack : Base58 → Type 0
ReadsBack b58 =
    (bytes : List ℕ) (s : String)
    → b58.encode_check bytes ≡ some s
    → b58.decode_check s ≡ some bytes

-- And so is what UTF-8 writes.
pub record IsBase58 (b58 : Base58) : Type 0 where
  pub decode-encode : ReadsBack b58
  pub from-as : (s : String) → b58.from_utf8 (b58.as_bytes s) ≡ some s

pub decode_bytes-encode_bytes :
    (b58 : Base58) (bytes : List ℕ) (e : Encoded)
    → ReadsBack b58
    → encode_bytes b58 bytes ≡ ok e
    → decode_bytes b58 e ≡ ok bytes
unfolding encode_bytes decode_bytes
decode_bytes-encode_bytes b58 bytes e law h =
    rw (law bytes e (ok_or-some _ _ e (λ b. err≢ok) h)) refl

module _ (b58 : Base58) (law : IsBase58 b58) where
  -- A text that is encoded is decoded to the same text.
  decode_text-encode_text :
      (s : String) (e : Encoded) → encode_text b58 s ≡ ok e → decode_text b58 e ≡ ok s
  unfolding encode_text decode_text
  decode_text-encode_text s e h =
      rw (decode_bytes-encode_bytes b58 (b58.as_bytes s) e law.decode-encode h, law.from-as s) refl

  -- And the virtual node that is made of a text has the text as its data.
  vnode_of_text-first :
      (codec : Codec) (topic s : String) (v : VirtualNode)
      → ((e : Encoded) → codec.decode_string e ≡ decode_text b58 e)
      → vnode_of_text b58 codec topic s ≡ ok v
      → decode_first codec v.payload ≡ ok s
  unfolding vnode_of_text vnode_of_topic decode_first
  vnode_of_text-first codec topic s v same h =
      let (e, h1, q) = >>=_steps (encode_text b58 s) _ h in
      let (did, h2, _) = >>=_steps (gen_did codec topic) _ h1 in
      subst (λ (x : VirtualNode). decode_first codec x.payload ≡ ok s) (ok-inj h2)
        (same e ∙ decode_text-encode_text s e q)
