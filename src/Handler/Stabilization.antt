-- ===== src/Handler/Stabilization.antt =====
-- `Stabilization` of rings-core/src/dht/stabilization.rs: what a node does at intervals.
use rings_node.Base.{true, not, List, [], ◌∷◌, ◌==◌, if◌then◌else◌}
use rings_node.Error.{panic}
use rings_node.Did.{Did}
use rings_node.Successor.{min_did, list}
use rings_node.Action.{PeerRingAction, nothing, remote_action}
use rings_node.Action
use rings_node.Chord.{lock}
use rings_node.Chord
use rings_node.Message.{
  Message, notify_predecessor_send, find_successor_send, report, fix_finger_table,
}
use rings_node.Act.{Act, lift, gets, is_ok, done, ◌>>=◌}
use rings_node.Swarm.{Swarm, Env, did, set_dht, ask_dht}
use rings_node.Swarm.Send.{made_send, send_payload}

module _ {K Sk S C W : Type 0} (env : Env K Sk S C W) where
  -- A message to this node, by way of `next_hop`
  abbrev pub send_by : Message → Did → Act (Swarm K Sk S C W) (Unit {0})
  send_by msg next_hop = do
    own ← gets did
    payload ← made_send env msg next_hop own
    send_payload env payload

  unfoldable pub notify_each : Message → List Did → Act (Swarm K Sk S C W) (Unit {0})
  notify_each msg [] = done
  notify_each msg (s ∷ successor_list) = do _ ← send_by msg s; notify_each msg successor_list

  unfoldable pub notify_predecessor : Act (Swarm K Sk S C W) (Unit {0})
  unfolding notify_each
  notify_predecessor = do
    successor ← ask_dht (λ ring. lock ring.successor_seq)
    own ← gets did
    if not (own == min_did successor)
        then notify_each (notify_predecessor_send own) (list successor)
        else done

  -- `fix_fingers` of the ring, which changes it beside an error too
  abbrev pub fix_step : Act (Swarm K Sk S C W) PeerRingAction
  fix_step self = let (ring, r) = Chord.fix_fingers self.dht in (r, set_dht ring self)

  unfoldable pub fix_action : PeerRingAction → Act (Swarm K Sk S C W) (Unit {0})
  fix_action nothing = done
  fix_action (remote_action next (Action.find_successor_for_fix current)) =
      send_by (find_successor_send current true (report fix_finger_table)) next
  fix_action _ = lift panic

  unfoldable pub fix_fingers : Act (Swarm K Sk S C W) (Unit {0})
  unfolding fix_action
  fix_fingers = do action ← fix_step; fix_action action

  unfoldable pub stabilize : Act (Swarm K Sk S C W) (Unit {0})
  unfolding notify_predecessor fix_fingers
  stabilize = do _ ← is_ok notify_predecessor; _ ← is_ok fix_fingers; done
