-- ===== src/Processor.antt =====
-- `Processor` of src/processor.rs: what a node does for its user, on the swarm. An error of the swarm is wrapped,
-- as `map_err` does. The call of the JSON-RPC client, with the reading of the answer, is the record `Client`;
-- base58 is `encode_string`. A `Peer` is an identifier and a transport.
pub mod Message
pub mod Same
pub mod Lists
pub mod Handshake
pub mod Sound
mod Examples
use rings_node.Base.{ℕ, Bool, Option, none, some, List, String, if◌then◌else◌}
use rings_node.Error.{
  Result, new_transport_error, transport_not_found, invalid_transport_id, internal_error,
  remote_rpc_error, json_deserialize_error, pending_transport, close_transport_error,
  register_ice_error, create_offer_error, create_answer_error, connect_with_did_error, vnode_error,
  service_register_error,
}
use rings_node.Did.{Did}
use rings_node.VNode.{VirtualNode, Encoded}
use rings_node.Act.{
  Act, pure, raise, lift, gets, modify, is_ok, done, map_err, or_else, or_raise, ◌>>=◌,
}
use rings_node.Swarm.{Swarm, Env, did, offer, answer, call}
use rings_node.Swarm.Transports.{
  new_transport, close, register, get_transport, get_transports, is_connected, remove_transport,
}
use rings_node.Swarm.Pending.{
  push_pending_transport, pop_pending_transport, find_pending_transport, pending_transports,
}
use rings_node.Swarm.Connect.{connect}
use rings_node.Handler.Storage as Storage

-- `call_method` of `AnswerOffer` at the node with that URL: `none` where the call fails, and nothing inside where
-- the answer is no `TransportAndIce`; otherwise its field `ice`.
pub record Client (W : Type 0) : Type 0 where
  pub call_answer_offer : W → String → String → Option (Option String) × W
  -- `did.to_string().encode()`
  pub encode_did : Did → Result Encoded

module _ {K Sk S C W : Type 0} where
  -- What the other node answers to the offer.
  abbrev pub asked :
      Option (Option String) × W → Swarm K Sk S C W → Result String × Swarm K Sk S C W
  asked (none, w) self = raise remote_rpc_error (record self { world = w })
  asked (some none, w) self = raise json_deserialize_error (record self { world = w })
  asked (some (some ice), w) self = pure ice (record self { world = w })

module _ {K Sk S C W : Type 0} (env : Env K Sk S C W) where
  -- The task of `create_offer`.
  unfoldable pub offered : ℕ → Act (Swarm K Sk S C W) (ℕ × String)
  offered transport = do
    hs_info ←
        map_err create_offer_error (λ self.
          call (λ w. env.rtc.get_handshake_info w transport self.session_manager offer) self)
    _ ← map_err pending_transport (push_pending_transport transport)
    pure (transport, hs_info)

  unfoldable pub create_offer : Act (Swarm K Sk S C W) (ℕ × String)
  unfolding offered
  create_offer = do
    transport ← map_err (λ _. new_transport_error) (new_transport env)
    or_else (offered transport) (λ e. do _ ← is_ok (close env transport); raise e)

  unfoldable pub handshake : ℕ → String → Act (Swarm K Sk S C W) String
  handshake transport hs_info = do
    did ← map_err register_ice_error (call (λ w. env.rtc.register_remote_info w transport hs_info))
    _ ← map_err register_ice_error (register env did transport)
    map_err create_answer_error (λ self.
        call (λ w. env.rtc.get_handshake_info w transport self.session_manager answer) self)

  unfoldable pub answer_offer : String → Act (Swarm K Sk S C W) (ℕ × String)
  unfolding handshake
  answer_offer ice_info = do
    transport ← map_err (λ _. new_transport_error) (new_transport env)
    or_else (do v ← handshake transport ice_info; pure (transport, v))
        λ e. do _ ← map_err close_transport_error (close env transport); raise e

  unfoldable pub connect_with_did : Did → Bool → Act (Swarm K Sk S C W) (Did × ℕ)
  connect_with_did did wait_for_open = do
    transport ← map_err connect_with_did_error (connect env did)
    _ ←
        if wait_for_open
        then map_err connect_with_did_error
            (call (λ w. env.rtc.wait_for_data_channel_open w transport))
        else done
    pure (did, transport)

  unfoldable pub accept_answer : String → String → Act (Swarm K Sk S C W) (Did × ℕ)
  accept_answer transport_id ice = do
    id ← or_raise (env.rtc.uuid_from_str transport_id) invalid_transport_id
    found ← map_err pending_transport (find_pending_transport id)
    transport ← or_raise found transport_not_found
    did ← map_err register_ice_error (call (λ w. env.rtc.register_remote_info w transport ice))
    _ ← map_err register_ice_error (register env did transport)
    _ ← is_ok (pop_pending_transport transport)
    pure (did, transport)

  unfoldable pub list_peers : Act (Swarm K Sk S C W) (List (Did × ℕ))
  list_peers = gets get_transports

  unfoldable pub get_peer : Did → Act (Swarm K Sk S C W) (Did × ℕ)
  get_peer did = do
    found ← gets (get_transport did)
    transport ← or_raise found transport_not_found
    pure (did, transport)

  unfoldable pub disconnect : Did → Act (Swarm K Sk S C W) (Unit {0})
  disconnect did = do
    found ← gets (get_transport did)
    transport ← or_raise found transport_not_found
    _ ← map_err close_transport_error (close env transport)
    _ ← remove_transport did
    done

  unfoldable pub list_pendings : Act (Swarm K Sk S C W) (List ℕ)
  list_pendings = map_err (λ _. internal_error) pending_transports

  unfoldable pub close_pending_transport : String → Act (Swarm K Sk S C W) (Unit {0})
  close_pending_transport transport_id = do
    id ← or_raise (env.rtc.uuid_from_str transport_id) invalid_transport_id
    found ← map_err (λ _. transport_not_found) (find_pending_transport id)
    transport ← or_raise found transport_not_found
    up ← gets (is_connected env transport)
    _ ← if up then map_err close_transport_error (close env transport) else done
    map_err close_transport_error (pop_pending_transport id)

  abbrev pub storage_check_cache : Did → Swarm K Sk S C W → Option VirtualNode
  storage_check_cache vid self = Storage.storage_check_cache env vid self

  unfoldable pub storage_fetch : Did → Act (Swarm K Sk S C W) (Unit {0})
  storage_fetch vid = map_err vnode_error (Storage.storage_fetch env vid)

  unfoldable pub storage_store : VirtualNode → Act (Swarm K Sk S C W) (Unit {0})
  storage_store vnode = map_err vnode_error (Storage.storage_store env vnode)

  unfoldable pub storage_append_data : String → Encoded → Act (Swarm K Sk S C W) (Unit {0})
  storage_append_data topic content =
      map_err vnode_error (Storage.storage_append_data env topic content)

  module _ (cl : Client W) where
    unfoldable pub register_service : String → Act (Swarm K Sk S C W) (Unit {0})
    register_service name = do
      own ← gets did
      encoded_did ← map_err service_register_error (lift (cl.encode_did own))
      map_err service_register_error (Storage.storage_touch_data env name encoded_did)

    -- The block of `do_connect_peer_via_http` that gives `addr_result`: an error leaves the function, also
    -- those that `?` raises there.
    unfoldable pub linked : String → ℕ → String → Act (Swarm K Sk S C W) Did
    linked node_url transport hs_info = do
      ice ← λ self. asked (cl.call_answer_offer self.world node_url hs_info) self
      did ← map_err register_ice_error (call (λ w. env.rtc.register_remote_info w transport ice))
      _ ← map_err register_ice_error (register env did transport)
      pure did

    unfoldable pub connect_peer_via_http : String → Act (Swarm K Sk S C W) ℕ
    unfolding create_offer linked
    connect_peer_via_http node_url = do
      made ← create_offer
      _ ← linked node_url made.0 made.1
      pure made.0
