-- ===== src/Rpc.antt =====
-- The JSON-RPC server of src/jsonrpc/server.rs, as far as it decides what happens: each method reads its parameters,
-- calls the processor and makes a reply. `is_auth` says whether the
-- request was signed. The tasks of `connect_with_seed` run one after the other.
pub mod Names
pub mod Replies
pub mod Auth
pub mod Same
pub mod Sound
mod Examples
use rings_node.Base.{
  ℕ, Bool, true, false, not, ◌||◌, Option, none, some, List, [], ◌∷◌, ◌++◌, String, drop, get_elem?,
  head?, ◌==◌, if◌then◌else◌, retain, map, ltb, ◌^◌,
}
use rings_node.Error.{Error, Result, ok, err, panic, no_permission, invalid_params, invalid_did}
use rings_node.Did.{Did}
use rings_node.VNode.{Encoded, VirtualNode, gen_did, map_err as map_errᵣ}
use rings_node.Act.{Act, pure, raise, lift, gets, done, or_raise, bound, ◌>>=◌}
use rings_node.Swarm.{Swarm, Env, IceState, did}
use rings_node.Swarm.Transports.{get_dids}
use rings_node.Backend.{
  BackendMessage, HttpRequest, of_pair, of_data, to_vec, u16_of_type, simple_text, http_request,
}
use rings_node.Processor as Processor
use rings_node.Processor.{Client}
use rings_node.Processor.Message as Sends
use rings_node.Rpc.Names as Names
use rings_node.Rpc.Names.{Method}
use rings_node.Rpc.Replies.{
  SeedPeer, Json, Reply, first_two, is_member, require_authed, first_error, attempted, parsed,
  replies, state_of, first_string, text_at, decoded, null, empty_object, transport_id,
  transport_and_ice, peer, peers, transport_infos, tx_id, texts, polled,
}

module _ {K Sk S C W P V : Type 0} (env : Env K Sk S C W) (cl : Client W) (js : Json P V W) where
  unfoldable pub connect_peer_via_http : P → Act (Swarm K Sk S C W) Reply
  connect_peer_via_http params = do
    peer_url ← first_string js params
    replies (Processor.connect_peer_via_http env cl peer_url) transport_id

  -- The tasks; the result is the first error.
  unfoldable pub connect_each : List SeedPeer → Act (Swarm K Sk S C W) (Unit {0})
  connect_each [] self = (ok tt, self)
  connect_each (x ∷ l) self =
      attempted (Processor.connect_peer_via_http env cl x.endpoint self) (connect_each l)

  unfoldable pub connect_with_seed : P → Act (Swarm K Sk S C W) Reply
  unfolding connect_each
  connect_with_seed params = do
    p ← parsed (js.parse_seeds params)
    seed ← parsed (head? p)
    dids ← gets get_dids
    own ← gets did
    replies (connect_each (retain (λ x. not (is_member (own ∷ dids) x.did)) seed)) (λ _. null)

  unfoldable pub answer_offer : P → Act (Swarm K Sk S C W) Reply
  answer_offer params = do
    ice_info ← first_string js params
    replies (Processor.answer_offer env ice_info) (λ r. transport_and_ice r.0 r.1)

  module _ (is_auth : Bool) where
    unfoldable pub connect_with_did : P → Act (Swarm K Sk S C W) Reply
    connect_with_did params = do
      _ ← require_authed is_auth
      address_str ← first_string js params
      did ← lift (map_errᵣ (env.codec.h160_from_str address_str) (err invalid_params))
      replies (Processor.connect_with_did env did true) (λ _. null)

    unfoldable pub create_offer : P → Act (Swarm K Sk S C W) Reply
    create_offer _ = do
      _ ← require_authed is_auth
      replies (Processor.create_offer env) (λ r. transport_and_ice r.0 r.1)

    unfoldable pub accept_answer : P → Act (Swarm K Sk S C W) Reply
    accept_answer params = do
      _ ← require_authed is_auth
      p ← parsed (js.parse_strings params)
      two ← lift (first_two p)
      q ← Processor.accept_answer env two.0 two.1
      state ← gets (λ self. state_of env self q.1)
      pure (peer q.0 q.1 state)

    unfoldable pub list_peers : P → Act (Swarm K Sk S C W) Reply
    list_peers _ = do
      _ ← require_authed is_auth
      l ← Processor.list_peers env
      gets (λ self. peers (map (λ (x : Did × ℕ). (x.0, x.1, state_of env self x.1)) l))

    unfoldable pub close_connection : P → Act (Swarm K Sk S C W) Reply
    close_connection params = do
      _ ← require_authed is_auth
      d ← first_string js params
      did ← lift (map_errᵣ (env.codec.h160_from_str d) (err invalid_did))
      replies (Processor.disconnect env did) (λ _. empty_object)

    unfoldable pub list_pendings : P → Act (Swarm K Sk S C W) Reply
    list_pendings _ = do
      _ ← require_authed is_auth
      l ← Processor.list_pendings env
      gets (λ self. transport_infos (map (λ (t : ℕ). (t, state_of env self t)) l))

    unfoldable pub close_pending_transport : P → Act (Swarm K Sk S C W) Reply
    close_pending_transport params = do
      _ ← require_authed is_auth
      id ← first_string js params
      replies (Processor.close_pending_transport env id) (λ _. empty_object)

    unfoldable pub send_raw_message : P → Act (Swarm K Sk S C W) Reply
    send_raw_message params = do
      _ ← require_authed is_auth
      fields ← parsed (js.parse_fields params)
      d ← parsed (fields "destination")
      destination ← parsed (js.as_str d)
      t ← parsed (fields "text")
      text ← parsed (js.as_str t)
      replies (Sends.send_message env destination (js.as_bytes text)) tx_id

    unfoldable pub send_custom_message : P → Act (Swarm K Sk S C W) Reply
    send_custom_message params = do
      _ ← require_authed is_auth
      l ← parsed (js.parse_values params)
      destination ← text_at js l 0
      v ← parsed (get_elem? l 1)
      n ← parsed (js.as_u64 v)
      message_type ← if ltb n (2 ^ 16) then pure n else raise invalid_params
      text ← text_at js l 2
      bytes ← parsed (js.base64_decode text)
      replies (Sends.send_message env destination (to_vec (of_pair message_type bytes))) tx_id

    unfoldable pub send_simple_text_message : P → Act (Swarm K Sk S C W) Reply
    send_simple_text_message params = do
      _ ← require_authed is_auth
      l ← parsed (js.parse_values params)
      destination ← text_at js l 0
      text ← text_at js l 1
      let msg = of_pair (u16_of_type simple_text) (js.as_bytes text)
      replies (Sends.send_message env destination (to_vec msg)) tx_id

    unfoldable pub send_http_request_message : P → Act (Swarm K Sk S C W) Reply
    send_http_request_message params = do
      _ ← require_authed is_auth
      l ← parsed (js.parse_values params)
      destination ← text_at js l 0
      p2 ← parsed (get_elem? l 1)
      request ← parsed (js.as_request p2)
      msg ← lift (of_data js.serialize_request http_request request)
      replies (Sends.send_message env destination (to_vec msg)) tx_id

    unfoldable pub publish_message_to_topic : P → Act (Swarm K Sk S C W) Reply
    publish_message_to_topic params = do
      _ ← require_authed is_auth
      l ← parsed (js.parse_values params)
      topic ← text_at js l 0
      text ← text_at js l 1
      content ← parsed (js.encode text)
      replies (Processor.storage_append_data env topic content) (λ _. empty_object)

    -- What the local cache has under the identifier after fetching it.
    abbrev pub fetched_texts : Did → (List Encoded → List Encoded) → Act (Swarm K Sk S C W) Reply
    fetched_texts vid part = do
      _ ← Processor.storage_fetch env vid
      found ← gets (Processor.storage_check_cache env vid)
      elim found [
        | none ↦ pure (texts [])
        | some vnode ↦ pure (texts (decoded js.decode (part vnode.payload)))
      ]

    unfoldable pub fetch_messages_of_topic : P → Act (Swarm K Sk S C W) Reply
    fetch_messages_of_topic params = do
      _ ← require_authed is_auth
      l ← parsed (js.parse_values params)
      topic ← text_at js l 0
      v ← parsed (get_elem? l 1)
      index ← parsed (js.as_usize v)
      vid ← lift (map_errᵣ (gen_did env.codec topic) (err invalid_params))
      fetched_texts vid (drop index)

    unfoldable pub register_service : P → Act (Swarm K Sk S C W) Reply
    register_service params = do
      _ ← require_authed is_auth
      l ← parsed (js.parse_values params)
      name ← text_at js l 0
      replies (Processor.register_service env cl name) (λ _. empty_object)

    unfoldable pub lookup_service : P → Act (Swarm K Sk S C W) Reply
    lookup_service params = do
      _ ← require_authed is_auth
      l ← parsed (js.parse_values params)
      name ← text_at js l 0
      rid ← lift (map_errᵣ (gen_did env.codec name) (err invalid_params))
      fetched_texts rid (λ es. es)

  -- The first parameter, where it is a Boolean.
  abbrev pub waits : List V → Bool
  waits l = elim (head? l) [
    | none ↦ false
    | some v ↦ elim (js.as_bool v) [ none ↦ false | some b ↦ b ]
  ]

  abbrev pub taken : Option BackendMessage × W → Swarm K Sk S C W → Result Reply × Swarm K Sk S C W
  taken (m, w) self = (ok (polled m), record self { world = w })

  unfoldable pub poll_message : P → Act (Swarm K Sk S C W) Reply
  poll_message params = do
    l ← parsed (js.parse_values params)
    λ self. taken (js.receive self.world (waits l)) self

  -- `build_handler`: what is called for each method.
  unfoldable pub handle : Bool → Method → P → Act (Swarm K Sk S C W) Reply
  handle is_auth Names.connect_peer_via_http params = connect_peer_via_http params
  handle is_auth Names.connect_with_seed params = connect_with_seed params
  handle is_auth Names.answer_offer params = answer_offer params
  handle is_auth Names.connect_with_did params = connect_with_did is_auth params
  handle is_auth Names.create_offer params = create_offer is_auth params
  handle is_auth Names.accept_answer params = accept_answer is_auth params
  handle is_auth Names.list_peers params = list_peers is_auth params
  handle is_auth Names.disconnect params = close_connection is_auth params
  handle is_auth Names.list_pendings params = list_pendings is_auth params
  handle is_auth Names.close_pending_transport params = close_pending_transport is_auth params
  handle is_auth Names.send_to params = send_raw_message is_auth params
  handle is_auth Names.send_http_request_message params = send_http_request_message is_auth params
  handle is_auth Names.send_simple_text params = send_simple_text_message is_auth params
  handle is_auth Names.send_custom_message params = send_custom_message is_auth params
  handle is_auth Names.publish_message_to_topic params = publish_message_to_topic is_auth params
  handle is_auth Names.fetch_messages_of_topic params = fetch_messages_of_topic is_auth params
  handle is_auth Names.register_service params = register_service is_auth params
  handle is_auth Names.lookup_service params = lookup_service is_auth params
  handle is_auth Names.poll_message params = poll_message params
