-- ===== src/Handler/Hop.antt =====
-- The handler of `FindSuccessorSend` as one step of a lookup on the ring.
use rings_node.Base.{
  ◌<◌, ◌≡◌, ◌≢◌, refl, ◌∙◌, subst, ◌⊎◌, inl, inr, false, Option, none, some, arith,
}
use rings_node.Error.{ok}
use rings_node.Did.{Did, IsDid, sub}
use rings_node.Finger.Closest.{Closest-progress}
use rings_node.Successor
use rings_node.Relay.{
  MessageRelay, method_send, relay, validate, other_hop, send_hop, reset_destination,
}
use rings_node.Chord.Ring.{IsPeerRing, IsUnlocked}
use rings_node.Chord.Lookup.{find_successor_returns}
use rings_node.Network.Correct.{IsSuccessor, NextNode, lookup_correct}
use rings_node.Message.{Message, find_successor_report, FindSuccessorReportHandler, report}
use rings_node.Payload.{MessagePayload}
use rings_node.Act.{bound}
use rings_node.Swarm.{Swarm, Env}
use rings_node.Swarm.Send.{send_report_message, forward_payload}
use rings_node.Handler.Lookup.{
  handle_find_successor_send, looked_up, answer_lookup, continue_lookup,
}

-- A message that has just arrived at the node `own`: it is on a valid way there.
pub record IsArrived (r : MessageRelay) (own : Did) : Type 0 where
  pub is_sent : r.method ≡ method_send
  pub valid : validate r ≡ ok tt
  pub here : other_hop r.next_hop own ≡ false

relay-send :
    (r : MessageRelay) (own : Did) (next : Option Did)
    → IsArrived r own
    → relay r own next ≡ ok (send_hop r own next)
unfolding relay
relay-send r own next a = ground (arith, a.is_sent, a.valid, a.here)

reset-send :
    (r : MessageRelay) (d : Did)
    → r.method ≡ method_send
    → reset_destination r d ≡ ok (record r { destination = d })
unfolding reset_destination
reset-send r d m = ground (arith, m)

module _ {K Sk S C W : Type 0} (env : Env K Sk S C W) (ctx : MessagePayload K Message)
    (s : Swarm K Sk S C W) where
  answer-eq :
      (n : Did) (h : FindSuccessorReportHandler)
      → IsArrived ctx.relay s.dht.did
      → answer_lookup env ctx n (report h) s
        ≡ send_report_message env
            (find_successor_report n h)
            ctx.tx_id
            (send_hop ctx.relay s.dht.did none)
            s
  unfolding answer_lookup bound
  answer-eq n h a = rw (relay-send ctx.relay s.dht.did none a) refl

  continue-eq :
      (n : Did)
      → IsArrived ctx.relay s.dht.did
      → continue_lookup env ctx n s
        ≡ forward_payload env ctx
            (record (send_hop ctx.relay s.dht.did (some n)) { destination = n })
            s
  unfolding continue_lookup bound
  continue-eq n a =
      rw
        (
          relay-send ctx.relay s.dht.did (some n) a,
          reset-send (send_hop ctx.relay s.dht.did (some n)) n a.is_sent,
        )
        refl

  -- Suppose the node is well-formed and unlocked, has a successor, and its nearest one is the next node after
  -- it on the ring. A lookup that is not strict, of another identifier, that has arrived on a valid
  -- way is then either answered, by a report of the first node at or after the identifier, or passed on to a
  -- node that is the node itself or strictly nearer, which becomes the destination; nothing else happens.
  pub lookup_step :
      (Node : Did → Type 0) (d : Did) (h : FindSuccessorReportHandler)
      → IsPeerRing s.dht
      → IsUnlocked s.dht
      → IsDid d
      → ((m : Did) → Node m → IsDid m)
      → Successor.is_empty s.dht.successor_seq.value ≡ false
      → NextNode Node s.dht.did (Successor.min_did s.dht.successor_seq.value)
      → d ≢ s.dht.did
      → IsArrived ctx.relay s.dht.did
      → ((n : Did) × IsSuccessor Node d n
          × (handle_find_successor_send env ctx d false (report h) s
              ≡ send_report_message env
                  (find_successor_report n h)
                  ctx.tx_id
                  (send_hop ctx.relay s.dht.did none)
                  s))
        ⊎ ((n : Did) × (n ≢ s.dht.did → IsDid n × (sub d n < sub d s.dht.did))
            × (handle_find_successor_send env ctx d false (report h) s
                ≡ forward_payload env ctx
                    (record (send_hop ctx.relay s.dht.did (some n)) { destination = n })
                    s))
  unfolding handle_find_successor_send looked_up bound
  lookup_step Node d h w u i nodes full next ne a = elim (find_successor_returns s.dht d w u) [
    | inl (n, e, _) ↦
        inl (n, lookup_correct Node s.dht d n w u i nodes full next ne e, rw e (answer-eq n h a))
    | inr (n, e, close, _, _) ↦ inr (
      n,
      λ other.
          subst (λ x. IsDid n × (sub d n < sub d x)) w.finger_own
            (Closest-progress s.dht.finger.value d n 160 w.finger_ok i close
              (λ q. other (q ∙ w.finger_own))),
      rw e (continue-eq n a),
    )
  ]
