-- ===== src/Processor/Message.antt =====
-- The methods of `Processor` that send, and the framing of what they send: four bytes in front, of which the first
-- is the mark of a chunk.
use rings_node.Base.{
  ℕ, List, [], ◌∷◌, String, drop, length, none, ltb, not, ◌==◌, if◌then◌else◌, Bool,
}
use rings_node.Error.{Result, ok, err, panic, invalid_did, send_message_error, invalid_data}
use rings_node.VNode as VNode
use rings_node.Message.Cipher.{custom}
use rings_node.Act.{Act, lift, map_err, ◌>>=◌}
use rings_node.Swarm.{Swarm, Env}
use rings_node.Swarm.Send as Send
use rings_node.Backend.{
  HttpRequest, new_message, of_pair, of_data, to_vec, u16_of_type, simple_text, http_request,
}

abbrev pub framed : List ℕ → List ℕ
framed msg = 0 ∷ 0 ∷ 0 ∷ 0 ∷ msg

module _ {K Sk S C W : Type 0} (env : Env K Sk S C W) where
  unfoldable pub send_message : String → List ℕ → Act (Swarm K Sk S C W) ℕ
  send_message destination msg = do
    did ← lift (VNode.map_err (env.codec.h160_from_str destination) (err invalid_did))
    new_msg ← map_err send_message_error (lift (custom env.cipher (framed msg) none))
    map_err send_message_error (Send.send_message env new_msg did)

  -- `HttpRequest::new` is made of the arguments; `serialize` is bincode.
  unfoldable pub send_http_request_message :
      (HttpRequest → Result (List ℕ)) → String → HttpRequest → Act (Swarm K Sk S C W) ℕ
  unfolding send_message
  send_http_request_message serialize destination request = do
    msg ← lift (of_data serialize http_request request)
    send_message destination (to_vec msg)

  unfoldable pub send_simple_text_message : String → List ℕ → Act (Swarm K Sk S C W) ℕ
  unfolding send_message
  send_simple_text_message destination text =
      send_message destination (to_vec (of_pair (u16_of_type simple_text) text))

  unfoldable pub send_custom_message : String → ℕ → List ℕ → List ℕ → Act (Swarm K Sk S C W) ℕ
  unfolding send_message
  send_custom_message destination message_type body extra =
      send_message destination (to_vec (new_message message_type extra body))

-- `unpack_text_message`: `split_at` panics on less than four bytes, and so does `unwrap` where the rest is no
-- UTF-8, which is decided by `is_utf8`.
unfoldable pub unpack_text_message : (List ℕ → Bool) → List ℕ → Result (List ℕ)
unpack_text_message is_utf8 [] = panic
unpack_text_message is_utf8 (flag ∷ msg) =
    if ltb (length msg) 3
    then panic
    else if not (flag == 0)
    then err invalid_data
    else if is_utf8 (drop 3 msg)
    then ok (drop 3 msg)
    else panic
