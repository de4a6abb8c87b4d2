-- ===== src/Handler/Connection.antt =====
-- The handlers of rings-core/src/message/handlers/connection.rs, but for those of a lookup.
use rings_node.Base.{false, not, Option, none, some, String, ◌==◌, if◌then◌else◌}
use rings_node.Error.{
  panic, message_handler_miss_next_node, invalid_transport_uuid,
  message_handler_miss_transport_connected_node, message_handler_miss_transport_already_connected,
}
use rings_node.Did.{Did}
use rings_node.Relay.{MessageRelay, relay, sender}
use rings_node.Action.{PeerRingAction, nothing, some_node, remote_action}
use rings_node.Action
use rings_node.Chord.{join, find_successor}
use rings_node.Message.{
  Message, find_successor_send, report, connect, connect_node_report, already_connected,
}
use rings_node.Payload.{MessagePayload}
use rings_node.Act.{Act, lift, gets, or_raise, done, ◌>>=◌}
use rings_node.Swarm.{Swarm, Env, did, answer, call, on_dht, ask_dht}
use rings_node.Swarm.Transports.{get_and_check_transport, new_transport}
use rings_node.Swarm.Pending.{push_pending_transport, find_pending_transport}
use rings_node.Swarm.Send.{send_direct_message, send_report_message, forward_payload}
use rings_node.Swarm.Connect.{disconnect}

-- The node that a lookup names.
abbrev pub node_of : PeerRingAction → Option Did
node_of (some_node node) = some node
node_of (remote_action node _) = some node
node_of _ = none

module _ {K Sk S C W : Type 0} (env : Env K Sk S C W) (ctx : MessagePayload K Message) where
  -- The relay of the message, one hop further at this node.
  abbrev pub relayed : Option Did → Act (Swarm K Sk S C W) MessageRelay
  relayed next_hop self = (relay ctx.relay self.dht.did next_hop, self)

  -- `relay.relay(self.dht.did, next)?; self.forward_payload(ctx, relay)`
  unfoldable pub pass_on : Did → Act (Swarm K Sk S C W) (Unit {0})
  pass_on next = do hop ← relayed (some next); forward_payload env ctx hop

  -- The node to ask next for the destination of the message.
  unfoldable pub pass_on_to_closest : Act (Swarm K Sk S C W) (Unit {0})
  unfolding pass_on
  pass_on_to_closest = do
    action ← ask_dht (λ ring. find_successor ring ctx.relay.destination)
    next_node ← or_raise (node_of action) message_handler_miss_next_node
    pass_on next_node

  unfoldable pub handle_leave_dht : Did → Act (Swarm K Sk S C W) (Unit {0})
  handle_leave_dht leaving = disconnect env leaving

  unfoldable pub joined : PeerRingAction → Act (Swarm K Sk S C W) (Unit {0})
  joined nothing = done
  joined (remote_action next (Action.find_successor_for_connect d)) =
      if not (next == ctx.addr)
      then (do
        _ ← send_direct_message env (find_successor_send d false (report connect)) next
        done)
      else done
  joined _ = lift panic

  unfoldable pub handle_join_dht : Did → Act (Swarm K Sk S C W) (Unit {0})
  unfolding joined
  handle_join_dht joining = do action ← on_dht (λ ring. join ring joining); joined action

  -- `ConnectNodeSend` at its destination, from a node that is not connected
  unfoldable pub accept : String → String → MessageRelay → Act (Swarm K Sk S C W) (Unit {0})
  accept transport_uuid handshake_info hop = do
    trans ← new_transport env
    _ ← call (λ w. env.rtc.register_remote_info w trans handshake_info)
    answer_info ←
        λ self. call (λ w. env.rtc.get_handshake_info w trans self.session_manager answer) self
    _ ← send_report_message env (connect_node_report transport_uuid answer_info) ctx.tx_id hop
    push_pending_transport trans

  unfoldable pub handle_connect_node_send : String → String → Act (Swarm K Sk S C W) (Unit {0})
  unfolding pass_on pass_on_to_closest accept
  handle_connect_node_send transport_uuid handshake_info = do
    own ← gets did
    if not (own == ctx.relay.destination)
        then (do
          found ← get_and_check_transport env ctx.relay.destination
          elim found [ some _ ↦ pass_on ctx.relay.destination | none ↦ pass_on_to_closest ])
        else (do
          hop ← relayed none
          from ← lift (sender hop)
          found ← get_and_check_transport env from
          elim found [
            | none ↦ accept transport_uuid handshake_info hop
            | some _ ↦ send_report_message env already_connected ctx.tx_id hop
          ])

  -- A report: it goes on as long as its relay has a next hop.
  abbrev pub at_end :
      Act (Swarm K Sk S C W) (Unit {0}) → MessageRelay → Act (Swarm K Sk S C W) (Unit {0})
  at_end last hop = elim hop.next_hop [ some _ ↦ forward_payload env ctx hop | none ↦ last ]

  unfoldable pub handle_connect_node_report : String → String → Act (Swarm K Sk S C W) (Unit {0})
  handle_connect_node_report transport_uuid handshake_info = do
    hop ← relayed none
    at_end
        (do
          id ← or_raise (env.rtc.uuid_from_str transport_uuid) invalid_transport_uuid
          found ← find_pending_transport id
          transport ← or_raise found message_handler_miss_transport_connected_node
          _ ← call (λ w. env.rtc.register_remote_info w transport handshake_info)
          done)
        hop

  unfoldable pub handle_already_connected : Act (Swarm K Sk S C W) (Unit {0})
  handle_already_connected = do
    hop ← relayed none
    at_end
        (do
          from ← lift (sender hop)
          found ← get_and_check_transport env from
          _ ← or_raise found message_handler_miss_transport_already_connected
          done)
        hop
