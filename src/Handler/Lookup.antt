-- ===== src/Handler/Lookup.antt =====
-- The handlers of a lookup in rings-core/src/message/handlers/connection.rs, and those of
-- rings-core/src/message/handlers/stabilization.rs.
use rings_node.Base.{Bool, false, not, ◌||◌, Option, none, some, ◌==◌, if◌then◌else◌}
use rings_node.Error.{
  Result, ok, err, panic, ◌>>=◌ as ◌>>=ᵣ◌, message_handler_miss_next_node,
  peer_ring_unexpected_action,
}
use rings_node.Did.{Did}
use rings_node.Relay.{MessageRelay, origin, reset_destination}
use rings_node.Action.{PeerRingAction, some_node, remote_action}
use rings_node.Action
use rings_node.Finger.{set_fix}
use rings_node.Successor.{update}
use rings_node.Chord.{PeerRing, lock, write, find_successor, notify}
use rings_node.Chord.Storage.{sync_vnode_with_successor}
use rings_node.Message.{
  Message, FindSuccessorThen, report, FindSuccessorReportHandler, no_handler, connect,
  fix_finger_table, sync_storage, custom_callback, find_successor_report, notify_predecessor_report,
}
use rings_node.Payload.{MessagePayload}
use rings_node.Act.{Act, pure, raise, lift, gets, modify, done, ◌>>=◌}
use rings_node.Swarm.{Swarm, Env, did, set_dht, on_dht, ask_dht, change_dht}
use rings_node.Swarm.Transports.{get_and_check_transport}
use rings_node.Swarm.Send.{send_message, send_report_message, forward_payload}
use rings_node.Swarm.Connect
use rings_node.Handler.Connection.{relayed, pass_on, at_end}

module _ {S C : Type 0} where
  -- `self.dht.lock_finger()?.set_fix(did)`
  unfoldable pub fix_finger : PeerRing S C → Did → Result (PeerRing S C)
  fix_finger ring did = lock ring.finger >>=ᵣ λ finger.
      ok (record ring { finger = write ring.finger (set_fix finger did) })

  -- `self.dht.lock_successor()?.update(did)`
  unfoldable pub update_successor : PeerRing S C → Did → Result (PeerRing S C)
  update_successor ring did = lock ring.successor_seq >>=ᵣ λ successor.
      ok (record ring { successor_seq = write ring.successor_seq (update successor did) })

module _ {K Sk S C W : Type 0} (env : Env K Sk S C W) where
  -- What a synchronisation of the virtual nodes leads to: only its popped nodes are sent.
  unfoldable pub synced : Result (PeerRing S C × PeerRingAction) → Act (Swarm K Sk S C W) (Unit {0})
  synced (ok (ring, remote_action next (Action.sync_vnode_with_successor l))) = do
    _ ← modify (set_dht ring)
    _ ← send_message env (Message.sync_vnode_with_successor l) next
    done
  synced (ok (ring, _)) = modify (set_dht ring)
  synced (err _) = done
  synced panic = lift panic

  unfoldable pub sync_storage_with : Did → Act (Swarm K Sk S C W) (Unit {0})
  unfolding synced
  sync_storage_with new_successor self =
      synced (sync_vnode_with_successor env.persistence self.dht new_successor) self

  -- `update` of the successors, and the synchronisation after it
  unfoldable pub sync_with : Did → Act (Swarm K Sk S C W) (Unit {0})
  unfolding sync_storage_with
  sync_with new_successor = do
    _ ← change_dht (λ ring. update_successor ring new_successor)
    sync_storage_with new_successor

  -- `get_and_check_transport(did).await.is_none() && did != self.swarm.did()`
  unfoldable pub is_stranger : Did → Act (Swarm K Sk S C W) Bool
  is_stranger d = do
    found ← get_and_check_transport env d
    own ← gets did
    pure (elim found [ none ↦ not (d == own) | some _ ↦ false ])

  abbrev pub connect_to : Did → Act (Swarm K Sk S C W) (Unit {0})
  connect_to d = do _ ← Connect.connect env d; done

module _ {K Sk S C W : Type 0} (env : Env K Sk S C W) (ctx : MessagePayload K Message) where
  -- The lookup ends here: `found` is reported to the origin.
  unfoldable pub answer_lookup : Did → FindSuccessorThen → Act (Swarm K Sk S C W) (Unit {0})
  answer_lookup found (report handler) = do
    hop ← relayed env ctx none
    send_report_message env (find_successor_report found handler) ctx.tx_id hop

  -- The lookup goes on at `next`.
  unfoldable pub continue_lookup : Did → Act (Swarm K Sk S C W) (Unit {0})
  continue_lookup next = do
    hop ← relayed env ctx (some next)
    onward ← lift (reset_destination hop next)
    forward_payload env ctx onward

  unfoldable pub looked_up :
      Did → Bool → FindSuccessorThen → PeerRingAction → Act (Swarm K Sk S C W) (Unit {0})
  unfolding answer_lookup continue_lookup
  looked_up d strict then_ (some_node found) = do
    own ← gets did
    if not strict || own == d then answer_lookup found then_ else (do
      transport ← get_and_check_transport env d
      elim transport [
        | some _ ↦ pass_on env ctx ctx.relay.destination
        | none ↦ raise message_handler_miss_next_node
      ])
  looked_up d strict then_ (remote_action next _) = continue_lookup next
  looked_up d strict then_ _ = raise peer_ring_unexpected_action

  unfoldable pub handle_find_successor_send :
      Did → Bool → FindSuccessorThen → Act (Swarm K Sk S C W) (Unit {0})
  unfolding looked_up
  handle_find_successor_send d strict then_ = do
    action ← ask_dht (λ ring. find_successor ring d)
    looked_up d strict then_ action

  unfoldable pub reported : Did → FindSuccessorReportHandler → Act (Swarm K Sk S C W) (Unit {0})
  unfolding fix_finger is_stranger sync_with
  reported d fix_finger_table = change_dht (λ ring. fix_finger ring d)
  reported d connect = do stranger ← is_stranger env d; if stranger then connect_to env d else done
  reported d sync_storage = sync_with env d
  reported d no_handler = done
  reported d (custom_callback _) = done

  unfoldable pub handle_find_successor_report :
      Did → FindSuccessorReportHandler → Act (Swarm K Sk S C W) (Unit {0})
  unfolding reported
  handle_find_successor_report d handler = do
    hop ← relayed env ctx none
    at_end env ctx (reported d handler) hop

  -- Whether there is a predecessor to report, another node than the one that asks.
  unfoldable pub report_predecessor : Option Did → MessageRelay → Act (Swarm K Sk S C W) (Unit {0})
  report_predecessor none hop = done
  report_predecessor (some d) hop = do
    from ← lift (origin hop)
    if not (d == from)
        then send_report_message env (notify_predecessor_report d) ctx.tx_id hop
        else done

  unfoldable pub handle_notify_predecessor_send : Did → Act (Swarm K Sk S C W) (Unit {0})
  unfolding report_predecessor
  handle_notify_predecessor_send d = do
    predecessor ← ask_dht (λ ring. lock ring.predecessor)
    hop ← relayed env ctx none
    _ ← on_dht (λ ring. notify ring d)
    report_predecessor predecessor hop

  unfoldable pub handle_notify_predecessor_report : Did → Act (Swarm K Sk S C W) (Unit {0})
  unfolding is_stranger sync_with
  handle_notify_predecessor_report d = do
    stranger ← is_stranger env d
    if stranger then connect_to env d else sync_with env d
