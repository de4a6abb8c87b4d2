-- ===== src/Chord/Remove.antt =====
-- `PeerRing::remove`: what is left of a node that went.
use rings_node.Base.{
  ℕ, suc, ◌≡◌, ◌≢◌, refl, ap, ◌∙◌, inl, inr, Option, none, some, List, [], ◌∷◌, arith, get_elem?,
  All, Bool-cases, Option-cases, subst,
}
use rings_node.Error.{ok}
use rings_node.Did.{Did}
use rings_node.Finger
use rings_node.Finger.{FingerTable, first_some}
use rings_node.Finger.Invariant.{IsFingerTable}
use rings_node.Finger.Remove.{remove-IsFingerTable, remove_absent}
use rings_node.Successor
use rings_node.Successor.{SuccessorSeq}
use rings_node.Successor.Invariant.{
  IsSuccessorSeq, update-IsSuccessorSeq, remove-IsSuccessorSeq, update-did, update-All,
  remove-absent,
}
use rings_node.Chord.{PeerRing, remove, refill, without_predecessor, write}
use rings_node.Chord.Ring.{IsPeerRing, IsUnlocked}

first_some-slot :
    (xs : List (Option Did)) (v : Did)
    → first_some xs ≡ some v
    → (k : ℕ) × (get_elem? xs k ≡ some (some v))
first_some-slot [] v e = cc
first_some-slot (none ∷ xs) v e = let (k, g) = first_some-slot xs v e in (suc k, g)
first_some-slot (some d ∷ xs) v e = (0, ap some e)

refill-IsSuccessorSeq :
    (t : FingerTable) (s : SuccessorSeq)
    → IsFingerTable t
    → IsSuccessorSeq s
    → IsSuccessorSeq (refill t s) × ((refill t s).did ≡ s.did)
unfolding refill Finger.first
refill-IsSuccessorSeq t s ft st = elim (Bool-cases (Successor.is_empty s)) [
  | inr e ↦ rw (e, refill) (st, refl)
  | inl e ↦ elim (Option-cases (first_some t.finger)) [
    | inl q ↦ rw (e, refill, q) (st, refl)
    | inr (v, q) ↦
        let (k, g) = first_some-slot t.finger v q in
        rw (e, refill, q) (update-IsSuccessorSeq s v st ((ft.reach k v g).0), update-did s v)
  ]
]

without_predecessor-some :
    (o : Option Did) (did p : Did) → without_predecessor o did ≡ some p → o ≡ some p
without_predecessor-some none did p e = cc
without_predecessor-some (some q) did p e = ground arith

without_predecessor-ne : (o : Option Did) (did : Did) → without_predecessor o did ≢ some did
without_predecessor-ne none did e = cc
without_predecessor-ne (some q) did e = ground arith

refill-others :
    (t : FingerTable) (s : SuccessorSeq) (did : Did)
    → ((k : ℕ) → get_elem? t.finger k ≢ some (some did))
    → All (λ d. d ≢ did) s.successors
    → All (λ d. d ≢ did) (refill t s).successors
unfolding refill Finger.first
refill-others t s did absent h = elim (Bool-cases (Successor.is_empty s)) [
  | inr e ↦ rw (e, refill) h
  | inl e ↦ elim (Option-cases (first_some t.finger)) [
    | inl q ↦ rw (e, refill, q) h
    | inr (v, q) ↦
        let (k, g) = first_some-slot t.finger v q in
        rw (e, refill, q)
          (update-All (λ d. d ≢ did) s v h (λ p. absent k (g ∙ ap (λ d. some (some d)) p)))
  ]
]

remove-owner :
    (t : FingerTable) (did : Did)
    → ((Finger.remove t did).did ≡ t.did) × ((Finger.remove t did).size ≡ t.size)
unfolding Finger.remove Finger.remove_span
remove-owner t did = ground arith

Successor_remove-did : (s : SuccessorSeq) (did : Did) → (Successor.remove s did).did ≡ s.did
unfolding Successor.remove
Successor_remove-did s did = refl

module _ {S C : Type 0} where
  -- No finger, no successor and no predecessor is `did`.
  abbrev pub IsForgotten : Did → PeerRing S C → Type 0
  IsForgotten did r =
      ((k : ℕ) → get_elem? r.finger.value.finger k ≢ some (some did))
      × All (λ d. d ≢ did) r.successor_seq.value.successors
      × (r.predecessor.value ≢ some did)

  -- The ring that `remove` leaves.
  abbrev pub removed : PeerRing S C → Did → PeerRing S C
  removed r did =
      let finger' = Finger.remove r.finger.value did in
      record r {
        predecessor = write r.predecessor (without_predecessor r.predecessor.value did);
        finger = write r.finger finger';
        successor_seq =
            write r.successor_seq (refill finger' (Successor.remove r.successor_seq.value did));
      }

  pub remove-eq : (r : PeerRing S C) (did : Did) → IsUnlocked r → remove r did ≡ ok (removed r did)
  unfolding remove
  remove-eq r did u = ground arith

  remove-ok : (r r' : PeerRing S C) (did : Did) → remove r did ≡ ok r' → removed r did ≡ r'
  unfolding remove
  remove-ok r r' did e = ground arith

  removed-IsPeerRing : (r : PeerRing S C) (did : Did) → IsPeerRing r → IsPeerRing (removed r did)
  removed-IsPeerRing r did w =
      let ft = remove-IsFingerTable r.finger.value did w.finger_ok in
      let own = remove-owner r.finger.value did in
      let st = remove-IsSuccessorSeq r.successor_seq.value did w.successor_ok in
      let (st', own') =
        refill-IsSuccessorSeq (Finger.remove r.finger.value did)
          (Successor.remove r.successor_seq.value did) ft st in
      record {
        finger_ok = ft;
        finger_own = own.0 ∙ w.finger_own;
        finger_size = own.1 ∙ w.finger_size;
        successor_ok = st';
        successor_own = own' ∙ Successor_remove-did r.successor_seq.value did ∙ w.successor_own;
        predecessor_ok = λ p e. w.predecessor_ok p (without_predecessor-some _ did p e);
      }

  -- A `remove` that succeeds keeps a well-formed ring well-formed.
  remove-IsPeerRing :
      (r r' : PeerRing S C) (did : Did) → IsPeerRing r → remove r did ≡ ok r' → IsPeerRing r'
  remove-IsPeerRing r r' did w e =
      subst IsPeerRing (remove-ok r r' did e) (removed-IsPeerRing r did w)

  -- After a `remove` that succeeds the node knows `did` no more: it is in no finger, not among the successors, and not
  -- the predecessor.
  pub remove_forgets : (r r' : PeerRing S C) (did : Did) → remove r did ≡ ok r' → IsForgotten did r'
  remove_forgets r r' did e = subst (IsForgotten did) (remove-ok r r' did e) (
    λ k g. (remove_absent r.finger.value did did k g).0 refl,
    refill-others (Finger.remove r.finger.value did) (Successor.remove r.successor_seq.value did)
        did (λ k g. (remove_absent r.finger.value did did k g).0 refl)
        (remove-absent r.successor_seq.value did),
    without_predecessor-ne r.predecessor.value did,
  )
