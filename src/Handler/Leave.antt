-- ===== src/Handler/Leave.antt =====
-- `LeaveDHT`: what is left of a node that went, in the ring and in the table of transports.
use rings_node.Base.{◌≡◌, ◌≢◌, refl, ap, sym, ◌∙◌, inl, inr, none, arith, Option-cases}
use rings_node.Error.{Error, ok, err, panic, Result-cases}
use rings_node.Did.{Did}
use rings_node.Message.{Message}
use rings_node.Payload.{MessagePayload}
use rings_node.Chord.{PeerRing, remove}
use rings_node.Chord.Ring.{IsUnlocked}
use rings_node.Chord.Remove.{IsForgotten, remove_forgets}
use rings_node.Act.{bound}
use rings_node.Swarm.{Swarm, Env}
use rings_node.Swarm.Transports.{get, delete, remove_transport}
use rings_node.Swarm.Transports.Register.{get-delete, delete-absent, close-transports}
use rings_node.Swarm.Same.{Same, bind-Same, option-Same, close-Same, remove_transport-Same}
use rings_node.Swarm.Connect.{disconnect, drop_transport}
use rings_node.Handler.Connection.{handle_leave_dht}

-- The node `d` is gone from the ring and the table of `s'`; the other transports are those of `s`.
pub record IsGone {K Sk S C W : Type 0} (d : Did) (s s' : Swarm K Sk S C W) : Type 0 where
  pub forgotten : IsForgotten d s'.dht
  pub closed : get s'.transports d ≡ none
  pub others : (k : Did) → k ≢ d → get s'.transports k ≡ get s.transports k

module _ {K Sk S C W : Type 0} (env : Env K Sk S C W) (ctx : MessagePayload K Message) (d : Did)
    (s : Swarm K Sk S C W) where
  gone :
      (s' : Swarm K Sk S C W) (ring : PeerRing S C)
      → remove s.dht d ≡ ok ring
      → s'.dht ≡ ring
      → s'.transports ≡ delete s.transports d
      → IsGone d s s'
  gone s' ring e q t = record {
    forgotten = remove_forgets s.dht s'.dht d (e ∙ ap ok (sym q));
    closed = ap (λ l. get l d) t ∙ get-delete s.transports d d ∙ ground arith;
    others = λ k ne. ap (λ l. get l k) t ∙ get-delete s.transports d k ∙ ground arith;
  }

  unlocked-ok : (x : Error) → IsUnlocked s.dht → remove s.dht d ≢ err x
  unfolding remove
  unlocked-ok x u e = ground (arith, u.finger_free, u.successor_free, u.predecessor_free)

  unlocked-calm : IsUnlocked s.dht → remove s.dht d ≢ panic
  unfolding remove
  unlocked-calm u e = ground (arith, u.finger_free, u.successor_free, u.predecessor_free)

  drop_transport-table :
      (s' : Swarm K Sk S C W) → (drop_transport env d s').1.transports ≡ delete s'.transports d
  unfolding drop_transport remove_transport bound
  drop_transport-table s' = elim (Option-cases (get s'.transports d)) [
    | inl g ↦ ground (arith, g, delete-absent s'.transports d g)
    | inr (t, g) ↦
        ground (
          arith,
          g,
          close-transports env d t s t (record s' { transports = delete s'.transports d }),
        )
  ]

  drop_transport-dht : Same (drop_transport env d)
  unfolding drop_transport
  drop_transport-dht =
      bind-Same _ _ (remove_transport-Same d)
        λ removed. option-Same removed _ _ (λ s'. refl) (λ r. close-Same env r.1)

  -- While no mutex is poisoned, after `LeaveDHT` no finger, no successor and no predecessor is the node that
  -- left, the table has no transport for it, and the other transports are as they were, whether or not its
  -- transport could be closed.
  pub handle_leave_dht_lem : IsUnlocked s.dht → IsGone d s ((handle_leave_dht env ctx d s).1)
  unfolding handle_leave_dht disconnect bound
  handle_leave_dht_lem u = elim (Result-cases (remove s.dht d)) [
    | inl (ring, e) ↦ rw e (gone _ ring e (drop_transport-dht _) (drop_transport-table _))
    | inr (inl (x, e)) ↦ absurd (unlocked-ok x u e)
    | inr (inr e) ↦ absurd (unlocked-calm u e)
  ]
