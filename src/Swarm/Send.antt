-- ===== src/Swarm/Send.antt =====
-- `PayloadSender` of rings-core/src/message/payload.rs, and what `Swarm` of rings-core/src/swarm.rs puts in
-- for it: how a payload leaves for its next hop.
use rings_node.Base.{ℕ, Option, none, some, if◌then◌else◌}
use rings_node.Error.{Result, ok, err, panic, swarm_miss_did_in_table, no_next_hop}
use rings_node.Did.{Did}
use rings_node.Relay.{MessageRelay}
use rings_node.Action.{PeerRingAction, some_node, remote_action}
use rings_node.Chord.{find_successor}
use rings_node.Message.{Message}
use rings_node.Payload.{MessagePayload}
use rings_node.Payload.New.{new_send, new_report, forwarded}
use rings_node.Act.{Act, pure, raise, lift, or_raise, ◌>>=◌}
use rings_node.Swarm.{Swarm, Env, MeasureCounter, sent, failed_to_send, call, fresh, ask_dht}
use rings_node.Swarm.Transports.{get_and_check_transport}

module _ {K Sk S C W : Type 0} (env : Env K Sk S C W) where
  -- `measure.incr`, where there is a measure.
  abbrev pub count : Did → MeasureCounter → Swarm K Sk S C W → Swarm K Sk S C W
  count did counter self =
      if self.measured then record self { world = env.rtc.incr self.world did counter } else self

  -- The outcome of sending, counted where the payload has a next hop.
  abbrev pub counted :
      Option Did → Result (Unit {0}) × Swarm K Sk S C W → Result (Unit {0}) × Swarm K Sk S C W
  counted none (r, self) = (r, self)
  counted (some did) (ok _, self) = (ok tt, count did sent self)
  counted (some did) (err e, self) = (err e, count did failed_to_send self)
  counted (some did) (panic, self) = (panic, self)

  unfoldable pub do_send_payload :
      Did → MessagePayload K Message → Act (Swarm K Sk S C W) (Unit {0})
  do_send_payload did payload = do
    found ← get_and_check_transport env did
    transport ← or_raise found swarm_miss_did_in_table
    bytes ← lift (env.rtc.to_bincode payload)
    _ ← call (λ w. env.rtc.wait_for_data_channel_open w transport)
    λ self. counted payload.relay.next_hop (call (λ w. env.rtc.send_bytes w transport bytes) self)

  unfoldable pub send_payload : MessagePayload K Message → Act (Swarm K Sk S C W) (Unit {0})
  unfolding do_send_payload
  send_payload payload = elim payload.relay.next_hop [
    | some did ↦ do_send_payload did payload
    | none ↦ raise no_next_hop
  ]

  -- `MessagePayload::new_send` with the time and a new `tx_id`.
  unfoldable pub made_send : Message → Did → Did → Act (Swarm K Sk S C W) (MessagePayload K Message)
  made_send msg next_hop destination = fresh env.rtc λ self now id.
      new_send env.signers env.key_signer now id msg self.session_manager next_hop destination

  -- The node that `find_successor` names.
  abbrev pub next_of : PeerRingAction → Act (Swarm K Sk S C W) Did
  next_of (some_node did) = pure did
  next_of (remote_action did _) = pure did
  next_of _ = raise no_next_hop

  unfoldable pub send_message : Message → Did → Act (Swarm K Sk S C W) ℕ
  unfolding made_send send_payload
  send_message msg destination = do
    action ← ask_dht (λ ring. find_successor ring destination)
    next_hop ← next_of action
    payload ← made_send msg next_hop destination
    _ ← send_payload payload
    pure payload.tx_id

  unfoldable pub send_direct_message : Message → Did → Act (Swarm K Sk S C W) ℕ
  unfolding made_send send_payload
  send_direct_message msg destination = do
    payload ← made_send msg destination destination
    _ ← send_payload payload
    pure payload.tx_id

  unfoldable pub send_report_message :
      Message → ℕ → MessageRelay → Act (Swarm K Sk S C W) (Unit {0})
  unfolding send_payload
  send_report_message msg tx_id relay = do
    payload ← fresh env.rtc λ self now id.
        new_report env.signers env.key_signer now id msg tx_id self.session_manager relay
    send_payload payload

  unfoldable pub forward_payload :
      MessagePayload K Message → MessageRelay → Act (Swarm K Sk S C W) (Unit {0})
  unfolding send_payload
  forward_payload payload relay = do
    new_pl ← fresh env.rtc λ self now id.
        forwarded env.signers env.key_signer now id payload self.session_manager relay
    send_payload new_pl
