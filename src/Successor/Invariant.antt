-- ===== src/Successor/Invariant.antt =====
-- The well-formedness of a successor sequence under `update` and `remove`.
use rings_node.Base.{
  ℕ, ◌^◌, ◌≤◌, ◌<◌, ◌≡◌, ◌≢◌, inl, inr, false, ◌||◌, List, [], ◌∷◌, ◌++◌, ◌==◌, not, length, retain,
  arith, All, All-take, All-retain, All-append, All-impl, All-of-retain, length-take,
  length-retain-le, Bool-cases, IsSorted, sort_by-IsSorted, All-sort_by, IsSorted-take,
  IsSorted-retain, Distinct, Distinct-take, Distinct-retain, Distinct-snoc, Distinct-sort_by,
}
use rings_node.Did.{Did, IsDid, sub, sort}
use rings_node.Successor.{SuccessorSeq, new, contains, update, remove}

-- At most `max_num` nodes of the ring, none of them the owner, in the order of their distances.
pub record IsSuccessorSeq (s : SuccessorSeq) : Type 0 where
  pub own : IsDid s.did
  pub bounded : length s.successors ≤ s.max_num
  pub narrow : s.max_num < 2 ^ 8
  pub dids : All IsDid s.successors
  pub others : All (λ d. d ≢ s.did) s.successors
  pub distinct : Distinct s.successors
  pub sorted : IsSorted (λ d. sub d s.did) s.successors

pub new-IsSuccessorSeq : (did : Did) (m : ℕ) → IsDid did → m < 2 ^ 8 → IsSuccessorSeq (new did m)
unfolding new
new-IsSuccessorSeq did m d h = record {
  own = d;
  bounded = omega arith;
  narrow = h;
  dids = tt;
  others = tt;
  distinct = tt;
  sorted = tt;
}

pub contains-false : (d : Did) (xs : List Did) → contains d xs ≡ false → All (λ x. x ≢ d) xs
unfolding contains
contains-false d [] h = tt
contains-false d (x ∷ xs) h = (ground arith, contains-false d xs (ground arith))

-- What holds of the old successors and of the new one holds of the updated sequence.
pub update-All {κ} :
    (P : Did → Type κ) (s : SuccessorSeq) (d : Did)
    → All P s.successors
    → P d
    → All P (update s d).successors
unfolding update sort
update-All P s d h p = elim (Bool-cases (contains d s.successors || d == s.did)) [
  | inl e ↦ rw (e, update) h
  | inr e ↦
      rw (e, update)
        (All-take P s.max_num _ (All-sort_by _ P _ (All-append P s.successors (d ∷ []) h (p, tt))))
]

pub remove-All {κ} :
    (P : Did → Type κ) (s : SuccessorSeq) (d : Did)
    → All P s.successors
    → All P (remove s d).successors
unfolding remove
remove-All P s d h = All-retain P _ s.successors h

-- The removed node is gone.
pub remove-absent : (s : SuccessorSeq) (d : Did) → All (λ x. x ≢ d) (remove s d).successors
unfolding remove
remove-absent s d =
    All-impl _ _ (retain (λ v. not (v == d)) s.successors) (λ x h. ground (arith, h))
      (All-of-retain (λ v. not (v == d)) s.successors)

-- `update` with an identifier keeps a well-formed sequence well-formed.
pub update-IsSuccessorSeq :
    (s : SuccessorSeq) (d : Did) → IsSuccessorSeq s → IsDid d → IsSuccessorSeq (update s d)
unfolding update sort
update-IsSuccessorSeq s d w h = elim (Bool-cases (contains d s.successors || d == s.did)) [
  | inl e ↦ rw (e, update) w
  | inr e ↦
      rw (e, update)
        (record {
          own = w.own;
          bounded = omega (arith, length-take s.max_num (sort (s.successors ++ d ∷ []) s.did));
          narrow = w.narrow;
          dids =
              All-take IsDid s.max_num _
                (All-sort_by _ IsDid _ (All-append IsDid s.successors _ w.dids (h, tt)));
          others =
              All-take (λ x. x ≢ s.did) s.max_num _
                (All-sort_by _ (λ x. x ≢ s.did) _
                  (All-append (λ x. x ≢ s.did) s.successors _ w.others (ground arith, tt)));
          distinct = Distinct-take s.max_num _ (
              Distinct-sort_by _ _ (
                Distinct-snoc s.successors d w.distinct
                  (contains-false d s.successors (ground arith))));
          sorted = IsSorted-take _ s.max_num _ (sort_by-IsSorted _ _);
        })
]

pub remove-IsSuccessorSeq :
    (s : SuccessorSeq) (d : Did) → IsSuccessorSeq s → IsSuccessorSeq (remove s d)
unfolding remove
remove-IsSuccessorSeq s d w = record {
  own = w.own;
  bounded = omega (arith, w.bounded, length-retain-le (λ v. not (v == d)) s.successors);
  narrow = w.narrow;
  dids = All-retain IsDid _ s.successors w.dids;
  others = All-retain (λ x. x ≢ s.did) _ s.successors w.others;
  distinct = Distinct-retain _ s.successors w.distinct;
  sorted = IsSorted-retain _ _ s.successors w.sorted;
}

pub update-did : (s : SuccessorSeq) (d : Did) → (update s d).did ≡ s.did
unfolding update
update-did s d = ground arith
