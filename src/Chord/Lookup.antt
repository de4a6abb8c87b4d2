-- ===== src/Chord/Lookup.antt =====
-- `PeerRing::find_successor`: its answers.
use rings_node.Base.{
  ◌≤◌, ◌<◌, ◌≡◌, refl, ◌⊎◌, inl, inr, true, false, ◌||◌, arith, Bool-cases, subst,
}
use rings_node.Error.{ok}
use rings_node.Did.{Did, sub, bias_le}
use rings_node.Did.Order.{bias_le-new_bias}
use rings_node.Finger.Closest.{Closest, closest_lem}
use rings_node.Successor
use rings_node.Action.{PeerRingAction, some_node, remote_action}
use rings_node.Action
use rings_node.Chord.{PeerRing, bias, find_successor}
use rings_node.Chord.Ring.{IsPeerRing, IsUnlocked}

-- `n` answers the lookup: the node itself while it has no successor, or else a nearest successor,
-- with `did` on the way to it.
pub record Answers {S C : Type 0} (r : PeerRing S C) (did : Did) (n : Did) : Type 0 where
  pub is_min : n ≡ Successor.min_did r.successor_seq.value
  pub lonely : (Successor.is_empty r.successor_seq.value ≡ true) ⊎ (sub did r.did ≤ sub n r.did)

module _ {S C : Type 0} (r : PeerRing S C) (did : Did) (w : IsPeerRing r) where
  -- On a well-formed unlocked ring the lookup returns an action: a node that answers it, or the closest finger to ask next, in
  -- which case there is a successor and `did` lies beyond the nearest one.
  pub find_successor_returns :
      IsUnlocked r
      → ((n : Did) × (find_successor r did ≡ ok (some_node n)) × Answers r did n)
        ⊎ ((n : Did) × (find_successor r did ≡ ok (remote_action n (Action.find_successor did)))
            × Closest r.finger.value did 160 n
            × (sub (Successor.min_did r.successor_seq.value) r.did < sub did r.did)
            × (Successor.is_empty r.successor_seq.value ≡ false))
  unfolding find_successor bias
  find_successor_returns u =
      let succ = r.successor_seq.value in
      let n = Successor.min_did succ in
      let le = bias_le-new_bias r.did did n in
      elim (Bool-cases (Successor.is_empty succ || bias_le (bias r did) (bias r n))) [
        | inl h ↦ inl (n, ground (arith, h), record { is_min = refl; lonely = ground (arith, le) })
        | inr h ↦
            let (m, c, close) = closest_lem r.finger.value did w.finger_ok in
            inr (
              m,
              ground (arith, h, c),
              subst (λ s. Closest r.finger.value did s m) w.finger_size close,
              ground (arith, le),
              ground (arith, h),
            )
      ]
