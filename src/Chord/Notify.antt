-- ===== src/Chord/Notify.antt =====
-- `PeerRing::notify`: the predecessor over a sequence of notifications.
use rings_node.Base.{
  ℕ, ◌≤◌, ◌≡◌, refl, ◌∙◌, ◌⊎◌, inl, inr, false, Option, none, some, List, [], ◌∷◌, arith, ltb,
  if◌then◌else◌, Bool-cases, All, subst, some-inj,
}
use mathlib.Core.List.{Mem, mem-cons_self, mem-cons_of_mem}
use rings_node.Error.{Result, ok, ◌>>=◌}
use rings_node.Did.{Did, IsDid, sub}
use rings_node.Did.Order.{bias_lt-new_bias}
use rings_node.Chord.{PeerRing, bias, is_closer, notify, write}
use rings_node.Chord.Ring.{IsPeerRing}

-- The clockwise distance of a recorded predecessor from the node; without one, nothing is recorded.
abbrev pub pred_dist : Did → Option Did → ℕ
pred_dist own none = 0
pred_dist own (some p) = sub p own

-- The predecessor after a notification.
abbrev pub notified : Did → Option Did → Did → Option Did
notified own none did = some did
notified own (some p) did = if ltb (sub p own) (sub did own) then some did else some p

-- What the notifier is told: its own identifier where it is taken.
abbrev pub told : Did → Option Did → Did → Option Did
told own none did = some did
told own (some p) did = if ltb (sub p own) (sub did own) then some did else none

module _ {S C : Type 0} where
  notify_at :
      (r : PeerRing S C) (did : Did) (o : Option Did)
      → r.predecessor.poisoned ≡ false
      → r.predecessor.value ≡ o
      → notify r did
        ≡ ok (
          record r { predecessor = write r.predecessor (notified r.did o did) },
          told r.did o did,
        )
  unfolding notify is_closer bias
  notify_at r did none u e = ground (arith, u, e)
  notify_at r did (some p) u e = ground (arith, u, e, bias_lt-new_bias r.did p did)

  -- Notified of `did` (the predecessor's mutex sound), a node takes it for its predecessor exactly if it has none or `did` lies
  -- strictly beyond the one it has, tells it so, and changes nothing else.
  pub notify_lem :
      (r : PeerRing S C) (did : Did)
      → r.predecessor.poisoned ≡ false
      → notify r did
        ≡ ok (
          record r { predecessor = write r.predecessor (notified r.did r.predecessor.value did) },
          told r.did r.predecessor.value did,
        )
  notify_lem r did u = notify_at r did r.predecessor.value u refl

  pub notify-IsPeerRing :
      (r r' : PeerRing S C) (did : Did) (o : Option Did)
      → IsPeerRing r
      → IsDid did
      → notify r did ≡ ok (r', o)
      → IsPeerRing r'
  unfolding notify
  notify-IsPeerRing r r' did o w d e = elim (Bool-cases (is_closer r r.predecessor.value did)) [
    | inl h ↦
        let q : taken ≡ r' = ground (arith, e, h) in
        subst IsPeerRing q (record {
          finger_ok = w.finger_ok;
          finger_own = w.finger_own;
          finger_size = w.finger_size;
          successor_ok = w.successor_ok;
          successor_own = w.successor_own;
          predecessor_ok = λ p q. subst IsDid (some-inj q) d;
        })
    | inr h ↦ let q : r ≡ r' = ground (arith, e, h) in subst IsPeerRing q w
  ]
    where
      taken : PeerRing S C
      taken = record r { predecessor = write r.predecessor (some did) }

  -- Notifications one after another.
  abbrev pub notify_all : PeerRing S C → List Did → Result (PeerRing S C)
  notify_all r [] = ok r
  notify_all r (d ∷ ds) = notify r d >>= λ s. notify_all (s.0) ds

pred_dist-notified :
    (own : Did) (o : Option Did) (did : Did)
    → (pred_dist own o ≤ pred_dist own (notified own o did))
      × (sub did own ≤ pred_dist own (notified own o did))
      × ((notified own o did ≡ o) ⊎ (notified own o did ≡ some did))
pred_dist-notified own none did = ground arith
pred_dist-notified own (some p) did = ground arith

module _ {S C : Type 0} where
  -- In whatever order nodes notify (the predecessor's mutex sound): the predecessor ends as one of them, or as it was, and none of
  -- them, nor the first one, lies beyond it.
  pub notify_all_lem :
      (ds : List Did) (r : PeerRing S C)
      → r.predecessor.poisoned ≡ false
      → (r' : PeerRing S C) × (notify_all r ds ≡ ok r')
        × (r'.did ≡ r.did)
        × (pred_dist r.did r.predecessor.value ≤ pred_dist r.did r'.predecessor.value)
        × All (λ d. sub d r.did ≤ pred_dist r.did r'.predecessor.value) ds
        × ((r'.predecessor.value ≡ r.predecessor.value)
            ⊎ ((d : Did) × Mem d ds × (r'.predecessor.value ≡ some d)))
  notify_all_lem [] r u = (r, refl, refl, omega arith, tt, inl refl)
  notify_all_lem (d ∷ ds) r u =
      let s = record r {
        predecessor = write r.predecessor (notified r.did r.predecessor.value d);
      } in
      let (up, here, which) = pred_dist-notified r.did r.predecessor.value d in
      let (r', e, own, more, all, from) = notify_all_lem ds s u in
      (
        r',
        rw (notify_lem r d u) e,
        own,
        omega (arith, up, more),
        (omega (arith, here, more), all),
        elim from [
          | inr (x, m, q) ↦ inr (x, mem-cons_of_mem d m, q)
          | inl q ↦ elim which [ inl p ↦ inl (q ∙ p) | inr p ↦ inr (d, mem-cons_self, q ∙ p) ]
        ],
      )
