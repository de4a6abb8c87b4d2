-- ===== src/Chord/Sound.antt =====
-- What stays true of a node whatever messages it handles, also reports that put any node into a finger:
-- the successors are well-formed, and all it holds are identifiers.
use rings_node.Base.{
  ℕ, zero, suc, ◌+◌, ◌-◌, ◌<◌, ◌^◌, ◌%◌, ◌≡◌, refl, ◌∙◌, inl, inr, Option, none, some, List, [],
  ◌∷◌, arith, subst, All, All-drop, set, head?, last?, drop, Bool-cases, Option-cases, replicate,
}
use rings_node.Error.{Result, ok, err, panic, >>=_steps, ok-inj, Result-cases}
use rings_node.Did.{Did, IsDid}
use rings_node.Finger
use rings_node.Finger.{
  FingerTable, first_some, fill, slot_or_none, indexes, remove_span, join_step, join_loop,
}
use rings_node.Successor
use rings_node.Successor.{SuccessorSeq}
use rings_node.Successor.Invariant.{
  IsSuccessorSeq, new-IsSuccessorSeq, update-IsSuccessorSeq, remove-IsSuccessorSeq, update-did,
}
use rings_node.Action.{PeerRingAction, nothing, some_vnode, some_node, remote_action, multi_actions}
use rings_node.Action
use rings_node.Successor.Nearest.{min_did-IsDid}
use rings_node.Chord.{
  PeerRing, write, remove, refill, without_predecessor, join, join_successor, notify,
  new_with_storage, set_index, fixed, fix_fingers, find_successor,
}

abbrev pub IsSlot : Option Did → Type 0
IsSlot none = Unit
IsSlot (some d) = IsDid d

-- `own` is the identifier of the node.
pub record IsSound {S C : Type 0} (own : Did) (r : PeerRing S C) : Type 0 where
  pub named : r.did ≡ own
  pub successor_ok : IsSuccessorSeq r.successor_seq.value
  pub successor_own : r.successor_seq.value.did ≡ own
  pub finger_own : r.finger.value.did ≡ own
  pub fingers_ok : All IsSlot r.finger.value.finger
  pub predecessor_ok : IsSlot r.predecessor.value

pub All-set {ℓ κ} :
    {A : Type ℓ} (P : A → Type κ) (xs : List A) (i : ℕ) (v : A)
    → All P xs
    → P v
    → All P (set xs i v)
All-set P [] i v h p = tt
All-set P (x ∷ xs) zero v h p = (p, h.1)
All-set P (x ∷ xs) (suc i) v h p = (h.0, All-set P xs i v h.1 p)

replicate-none : (n : ℕ) → All IsSlot (replicate n none)
replicate-none zero = tt
replicate-none (suc n) = (tt, replicate-none n)

slot_or_none-IsSlot : (xs : List (Option Did)) → All IsSlot xs → IsSlot (slot_or_none (head? xs))
slot_or_none-IsSlot [] h = tt
slot_or_none-IsSlot (x ∷ xs) h = h.0

first_some-IsSlot : (xs : List (Option Did)) → All IsSlot xs → IsSlot (first_some xs)
first_some-IsSlot [] h = tt
first_some-IsSlot (none ∷ xs) h = first_some-IsSlot xs h.1
first_some-IsSlot (some d ∷ xs) h = h.0

fill-All :
    (n i : ℕ) (v : Option Did) (xs : List (Option Did))
    → All IsSlot xs
    → IsSlot v
    → All IsSlot (fill n i v xs)
unfolding fill
fill-All zero i v xs h p = h
fill-All (suc n) i v xs h p = fill-All n (i + 1) v (set xs i v) (All-set IsSlot xs i v h p) p

remove_span-All :
    (t : FingerTable) (a b : Option ℕ)
    → All IsSlot t.finger
    → All IsSlot (remove_span t a b).finger × ((remove_span t a b).did ≡ t.did)
unfolding remove_span
remove_span-All t none b h = (h, refl)
remove_span-All t (some a) none h = (h, refl)
remove_span-All t (some a) (some b) h = (
  fill-All (b + 1 - a) a _ t.finger h
      (slot_or_none-IsSlot (drop (b + 1) t.finger) (All-drop IsSlot (b + 1) t.finger h)),
  refl,
)

join_step-All :
    (t : FingerTable) (did : Did) (k : ℕ) (t' : FingerTable)
    → join_step t did k ≡ ok t'
    → All IsSlot t.finger
    → IsDid did
    → All IsSlot t'.finger × (t'.did ≡ t.did)
unfolding join_step
join_step-All t did k t' e h d = ground (arith, All-set IsSlot t.finger k (some did) h d)

join_loop-All :
    (n k : ℕ) (t : FingerTable) (did : Did) (t' : FingerTable)
    → join_loop n k t did ≡ ok t'
    → All IsSlot t.finger
    → IsDid did
    → All IsSlot t'.finger × (t'.did ≡ t.did)
unfolding join_loop
join_loop-All zero k t did t' e h d = rw⁻¹ (ok-inj e) (h, refl)
join_loop-All (suc n) k t did t' e h d =
    let (u, rest, s) = >>=_steps (join_step t did k) _ e in
    let (hu, eu) = join_step-All t did k u s h d in
    let (ht, et) = join_loop-All n (k + 1) u did t' rest hu d in (ht, et ∙ eu)

refill-Sound :
    (own : Did) (t : FingerTable) (s : SuccessorSeq)
    → All IsSlot t.finger
    → IsSuccessorSeq s
    → s.did ≡ own
    → IsSuccessorSeq (refill t s) × ((refill t s).did ≡ own)
unfolding refill Finger.first
refill-Sound own t s h st e = elim (Bool-cases (Successor.is_empty s)) [
  | inr q ↦ rw (q, refill) (st, e)
  | inl q ↦ elim (Option-cases (first_some t.finger)) [
    | inl f ↦ rw (q, refill, f) (st, e)
    | inr (v, f) ↦
        rw (q, refill, f)
          (
            update-IsSuccessorSeq s v st (subst IsSlot f (first_some-IsSlot t.finger h)),
            update-did s v ∙ e,
          )
  ]
]

without_predecessor-IsSlot :
    (o : Option Did) (did : Did) → IsSlot o → IsSlot (without_predecessor o did)
without_predecessor-IsSlot none did h = tt
without_predecessor-IsSlot (some p) did h = ground arith

module _ {S C : Type 0} (own : Did) (r : PeerRing S C) (w : IsSound own r) (did : Did) where
  pub update-IsSound :
      IsDid did
      → IsSound own (record r {
        successor_seq = write r.successor_seq (Successor.update r.successor_seq.value did);
      })
  update-IsSound d = record {
    named = w.named;
    successor_ok = update-IsSuccessorSeq r.successor_seq.value did w.successor_ok d;
    successor_own = update-did r.successor_seq.value did ∙ w.successor_own;
    finger_own = w.finger_own;
    fingers_ok = w.fingers_ok;
    predecessor_ok = w.predecessor_ok;
  }

  remove-IsSound-step : IsSound own (record r {
    predecessor = write r.predecessor (without_predecessor r.predecessor.value did);
    finger = write r.finger (Finger.remove r.finger.value did);
    successor_seq =
        write r.successor_seq
          (refill (Finger.remove r.finger.value did) (Successor.remove r.successor_seq.value did));
  })
  unfolding Finger.remove Successor.remove
  remove-IsSound-step =
      let t = r.finger.value in
      let ixs = indexes 0 did t.finger in
      let (h, e) = remove_span-All t (head? ixs) (last? ixs) w.fingers_ok in
      let (s, q) =
        refill-Sound own (Finger.remove t did) (Successor.remove r.successor_seq.value did) h
          (remove-IsSuccessorSeq r.successor_seq.value did w.successor_ok) w.successor_own in
      record {
        named = w.named;
        successor_ok = s;
        successor_own = q;
        finger_own = e ∙ w.finger_own;
        fingers_ok = h;
        predecessor_ok = without_predecessor-IsSlot r.predecessor.value did w.predecessor_ok;
      }

  pub remove-IsSound : (r' : PeerRing S C) → remove r did ≡ ok r' → IsSound own r'
  unfolding remove
  remove-IsSound r' e = ground (arith, remove-IsSound-step)

  join_successor-Sound :
      IsDid did
      → IsSuccessorSeq (join_successor r r.successor_seq.value did)
        × ((join_successor r r.successor_seq.value did).did ≡ own)
  unfolding join_successor
  join_successor-Sound d = ground (
    arith,
    w.successor_ok,
    w.successor_own,
    update-IsSuccessorSeq r.successor_seq.value did w.successor_ok d,
    update-did r.successor_seq.value did,
  )

  joined-Sound :
      IsDid did
      → (t : FingerTable) → Finger.join r.finger.value did ≡ ok t
      → IsSound own (record r {
        finger = write r.finger t;
        successor_seq = write r.successor_seq (join_successor r r.successor_seq.value did);
      })
  unfolding Finger.join
  joined-Sound d t e =
      let u = r.finger.value in
      let (h, q) = join_loop-All (u.size % 2 ^ 32) 0 u did t e w.fingers_ok d in
      let (s, q') = join_successor-Sound d in
      record {
        named = w.named;
        successor_ok = s;
        successor_own = q';
        finger_own = q ∙ w.finger_own;
        fingers_ok = h;
        predecessor_ok = w.predecessor_ok;
      }

  pub join-IsSound :
      IsDid did
      → (r' : PeerRing S C) (a : PeerRingAction) → join r did ≡ ok (r', a)
      → IsSound own r'
  unfolding join
  join-IsSound d r' a e = elim (Result-cases (Finger.join r.finger.value did)) [
    | inl (t, q) ↦ ground (arith, w, joined-Sound d t q)
    | inr (inl (x, q)) ↦ ground (arith, w)
    | inr (inr q) ↦ ground (arith, w)
  ]

  pub notify-IsSound :
      IsDid did → (r' : PeerRing S C) (o : Option Did) → notify r did ≡ ok (r', o) → IsSound own r'
  unfolding notify
  notify-IsSound d r' o e = ground (arith, w)

module _ {S C : Type 0} (own : Did) (r : PeerRing S C) (w : IsSound own r) where
  -- Any identifier may go into the finger that is fixed next.
  pub set_fix-IsSound :
      (did : Did)
      → IsDid did
      → IsSound own (record r { finger = write r.finger (Finger.set_fix r.finger.value did) })
  unfolding Finger.set_fix Finger.set_slot
  set_fix-IsSound did d = record {
    named = w.named;
    successor_ok = w.successor_ok;
    successor_own = w.successor_own;
    finger_own = w.finger_own;
    fingers_ok =
        All-set IsSlot r.finger.value.finger r.finger.value.fix_finger_index (some did) w.fingers_ok
          d;
    predecessor_ok = w.predecessor_ok;
  }

  set_index-IsSound : (i : ℕ) → IsSound own (set_index r i)
  set_index-IsSound i = record {
    named = w.named;
    successor_ok = w.successor_ok;
    successor_own = w.successor_own;
    finger_own = w.finger_own;
    fingers_ok = w.fingers_ok;
    predecessor_ok = w.predecessor_ok;
  }

  find_successor-IsDid : (d v : Did) → find_successor r d ≡ ok (some_node v) → IsDid v
  unfolding find_successor
  find_successor-IsDid d v e =
      let min_ok = min_did-IsDid r.successor_seq.value w.successor_ok in
      elim (Result-cases (Finger.closest r.finger.value d)) [
        | inl (c, q) ↦ ground (arith, min_ok)
        | inr (inl (x, q)) ↦ ground (arith, min_ok)
        | inr (inr q) ↦ ground (arith, min_ok)
      ]

module _ {S C : Type 0} (own : Did) (r : PeerRing S C) (w : IsSound own r) where
  fixed-IsSound :
      (i : ℕ) (found : Result PeerRingAction)
      → ((v : Did) → found ≡ ok (some_node v) → IsDid v)
      → IsSound own ((fixed r i found).0)
  unfolding fixed
  fixed-IsSound i (ok (some_node v)) h =
      set_fix-IsSound own (set_index r i) (set_index-IsSound own r w i) v (h v refl)
  fixed-IsSound i (ok (remote_action a (Action.find_successor b))) h = set_index-IsSound own r w i
  fixed-IsSound i (ok (remote_action a (Action.find_vnode b))) h = set_index-IsSound own r w i
  fixed-IsSound i (ok (remote_action a (Action.find_vnode_for_operate b))) h =
      set_index-IsSound own r w i
  fixed-IsSound i (ok (remote_action a (Action.notify b))) h = set_index-IsSound own r w i
  fixed-IsSound i (ok (remote_action a (Action.sync_vnode_with_successor b))) h =
      set_index-IsSound own r w i
  fixed-IsSound i (ok (remote_action a (Action.find_successor_for_connect b))) h =
      set_index-IsSound own r w i
  fixed-IsSound i (ok (remote_action a (Action.find_successor_for_fix b))) h =
      set_index-IsSound own r w i
  fixed-IsSound i (ok (remote_action a Action.check_predecessor)) h = set_index-IsSound own r w i
  fixed-IsSound i (ok nothing) h = set_index-IsSound own r w i
  fixed-IsSound i (ok (some_vnode _)) h = set_index-IsSound own r w i
  fixed-IsSound i (ok (multi_actions _)) h = set_index-IsSound own r w i
  fixed-IsSound i (err e) h = set_index-IsSound own r w i
  fixed-IsSound i panic h = w

  pub fix_fingers-IsSound : IsSound own ((fix_fingers r).0)
  unfolding fix_fingers
  fix_fingers-IsSound = elim (Bool-cases r.finger.poisoned) [
    | inl q ↦ rw (q, fix_fingers) w
    | inr q ↦ rw (q, fix_fingers) (fixed-IsSound _ _ (λ v e. find_successor-IsDid own r w _ v e))
  ]

pub new_with_storage-IsSound :
    {S C : Type 0} (did : Did) (succ_max : ℕ) (s : S) (c : C)
    → IsDid did
    → succ_max < 2 ^ 8
    → IsSound did (new_with_storage did succ_max s c)
unfolding new_with_storage Finger.new Successor.new
new_with_storage-IsSound did m s c d h = record {
  named = refl;
  successor_ok = new-IsSuccessorSeq did m d h;
  successor_own = refl;
  finger_own = refl;
  fingers_ok = replicate-none 160;
  predecessor_ok = tt;
}
