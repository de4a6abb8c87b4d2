-- ===== src/Handler/Storage.antt =====
-- rings-core/src/message/handlers/storage.rs and subring.rs: `ChordStorageInterface` and `SubringInterface`
-- of the swarm, and the handlers of messages on virtual nodes.
use rings_node.Base.{Option, none, some, List, [], ◌∷◌, String}
use rings_node.Error.{peer_ring_unexpected_action}
use rings_node.Did.{Did}
use rings_node.Relay.{relay, reset_destination}
use rings_node.VNode.{
  VirtualNode, VNodeOperation, overwrites, extends, touches, joins_subring, Encoded, vnode_of_topic,
}
use rings_node.Action.{PeerRingAction, nothing, some_vnode, remote_action}
use rings_node.Action
use rings_node.Chord.Storage.{vnode_lookup, vnode_operate, local_cache_set, local_cache_get}
use rings_node.Message.{Message, search_vnode, found_vnode, operate_vnode}
use rings_node.Payload.{MessagePayload}
use rings_node.Act.{Act, raise, lift, gets, modify, done, ◌>>=◌}
use rings_node.Swarm.{Swarm, Env, did, set_dht, on_dht, ask_dht}
use rings_node.Swarm.Send.{send_message, send_report_message, forward_payload}
use rings_node.Handler.Connection.{relayed, pass_on, at_end}

module _ {K Sk S C W : Type 0} (env : Env K Sk S C W) where
  abbrev pub cached : VirtualNode → Act (Swarm K Sk S C W) (Unit {0})
  cached v = modify (λ self. set_dht (local_cache_set env.local_cache self.dht v) self)

  abbrev pub sent_to : Message → Did → Act (Swarm K Sk S C W) (Unit {0})
  sent_to msg target = do _ ← send_message env msg target; done

  abbrev pub storage_check_cache : Did → Swarm K Sk S C W → Option VirtualNode
  storage_check_cache vid self = local_cache_get env.local_cache self.dht vid

  unfoldable pub fetched : Did → PeerRingAction → Act (Swarm K Sk S C W) (Unit {0})
  fetched vid nothing = done
  fetched vid (some_vnode v) = cached v
  fetched vid (remote_action next _) = sent_to (search_vnode vid) next
  fetched vid _ = raise peer_ring_unexpected_action

  unfoldable pub storage_fetch : Did → Act (Swarm K Sk S C W) (Unit {0})
  unfolding fetched
  storage_fetch vid = do
    action ← ask_dht (λ ring. vnode_lookup env.persistence ring vid)
    fetched vid action

  unfoldable pub operated : PeerRingAction → Act (Swarm K Sk S C W) (Unit {0})
  operated nothing = done
  operated (remote_action target (Action.find_vnode_for_operate op)) =
      sent_to (operate_vnode op) target
  operated _ = raise peer_ring_unexpected_action

  -- What the methods below do with an operation: it is done here, or goes where it belongs.
  unfoldable pub run_operation : VNodeOperation → Act (Swarm K Sk S C W) (Unit {0})
  unfolding operated
  run_operation op = do
    action ← on_dht (λ ring. vnode_operate env.persistence env.codec ring op)
    operated action

  unfoldable pub storage_store : VirtualNode → Act (Swarm K Sk S C W) (Unit {0})
  unfolding run_operation
  storage_store vnode = run_operation (overwrites vnode)

  unfoldable pub storage_append_data : String → Encoded → Act (Swarm K Sk S C W) (Unit {0})
  unfolding run_operation
  storage_append_data topic content = do
    vnode ← lift (vnode_of_topic env.codec topic content)
    run_operation (extends vnode)

  unfoldable pub storage_touch_data : String → Encoded → Act (Swarm K Sk S C W) (Unit {0})
  unfolding run_operation
  storage_touch_data topic content = do
    vnode ← lift (vnode_of_topic env.codec topic content)
    run_operation (touches vnode)

  unfoldable pub subring_join : String → Act (Swarm K Sk S C W) (Unit {0})
  unfolding run_operation
  subring_join name = do own ← gets did; run_operation (joins_subring name own)

  -- `local_cache_set` on each virtual node
  unfoldable pub cache_all : List VirtualNode → Act (Swarm K Sk S C W) (Unit {0})
  cache_all [] = done
  cache_all (v ∷ l) = do _ ← cached v; cache_all l

  -- `handle` of `SyncVNodeWithSuccessor`
  unfoldable pub handle_sync_vnode_with_successor :
      List VirtualNode → Act (Swarm K Sk S C W) (Unit {0})
  unfolding storage_store
  handle_sync_vnode_with_successor [] = done
  handle_sync_vnode_with_successor (v ∷ l) = do
    _ ← storage_store v
    handle_sync_vnode_with_successor l

module _ {K Sk S C W : Type 0} (env : Env K Sk S C W) (ctx : MessagePayload K Message) where
  unfoldable pub searched : PeerRingAction → Act (Swarm K Sk S C W) (Unit {0})
  searched nothing = done
  searched (some_vnode v) = do
    hop ← relayed env ctx none
    send_report_message env (found_vnode (v ∷ [])) ctx.tx_id hop
  searched (remote_action next _) = pass_on env ctx next
  searched _ = raise peer_ring_unexpected_action

  unfoldable pub handle_search_vnode : Did → Act (Swarm K Sk S C W) (Unit {0})
  unfolding searched
  handle_search_vnode vid = do
    action ← ask_dht (λ ring. vnode_lookup env.persistence ring vid)
    searched action

  unfoldable pub handle_found_vnode : List VirtualNode → Act (Swarm K Sk S C W) (Unit {0})
  unfolding cache_all
  handle_found_vnode l = do hop ← relayed env ctx none; at_end env ctx (cache_all env l) hop

  unfoldable pub operated_for : PeerRingAction → Act (Swarm K Sk S C W) (Unit {0})
  operated_for nothing = done
  operated_for (remote_action next _) = do
    onward ← lift (reset_destination ctx.relay next)
    own ← gets did
    hop ← lift (relay onward own (some next))
    forward_payload env ctx hop
  operated_for _ = raise peer_ring_unexpected_action

  unfoldable pub handle_operate_vnode : VNodeOperation → Act (Swarm K Sk S C W) (Unit {0})
  unfolding operated_for
  handle_operate_vnode op = do
    action ← on_dht (λ ring. vnode_operate env.persistence env.codec ring op)
    operated_for action
