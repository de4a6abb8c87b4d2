-- ===== src/Successor/Nearest.antt =====
-- What the successor sequence holds: the nearest nodes clockwise.
use rings_node.Base.{
  ℕ, zero, suc, ◌≤◌, ◌≡◌, ◌≢◌, ◌↔◌, refl, ap, true, false, ◌||◌, List, [], ◌∷◌, ◌++◌, ◌==◌, head?,
  length, take, drop, arith, All, take-append-drop, take-le-drop, Perm, IsSorted, leb→le, le→leb,
  sort_by-perm, sort_by-IsSorted, subst,
}
use mathlib.Core.List.{perm_middle, append-nil}
use mathlib.Core.List.Perm
use rings_node.Did.{Did, IsDid, sub, sort}
use rings_node.Successor.{SuccessorSeq, is_empty, is_full, min_did, contains, update, or_self}
use rings_node.Successor.Invariant.{IsSuccessorSeq}

-- `min` is nearer than, or as near as, every successor.
pub min_did-le :
    (s : SuccessorSeq)
    → IsSuccessorSeq s
    → All (λ d. sub (min_did s) s.did ≤ sub d s.did) s.successors
unfolding min_did
min_did-le s w = by_list s.successors w.sorted
  where
    by_list :
        (xs : List Did)
        → IsSorted (λ d. sub d s.did) xs
        → All (λ d. sub (or_self s.did (head? xs)) s.did ≤ sub d s.did) xs
    by_list [] h = tt
    by_list (x ∷ xs) h = (omega arith, h.0)

-- A new node enters the sequence in its place, and what no longer fits in is what lies farthest:
-- the kept nodes and the dropped ones are the old ones and `d`, no dropped node is nearer than a
-- kept one, and nothing is dropped before `max_num` nodes are kept.
pub update_nearest :
    (s : SuccessorSeq) (d : Did)
    → contains d s.successors ≡ false
    → d ≢ s.did
    → (rest : List Did) × Perm ((update s d).successors ++ rest) (d ∷ s.successors)
      × All (λ r. All (λ k. sub k s.did ≤ sub r s.did) (update s d).successors) rest
      × (rest ≢ [] → length (update s d).successors ≡ s.max_num)
unfolding update sort
update_nearest s d new other =
    rw (test, update)
      (
        drop s.max_num sorted,
        rw (take-append-drop s.max_num sorted) (
            Perm.trans (sort_by-perm _ (s.successors ++ d ∷ [])) (
              subst (λ ys. Perm (s.successors ++ d ∷ []) (d ∷ ys)) (append-nil s.successors)
                (perm_middle s.successors []))),
        take-le-drop _ s.max_num sorted (sort_by-IsSorted _ (s.successors ++ d ∷ [])),
        λ ne. full s.max_num sorted ne,
      )
  where
    sorted : List Did
    sorted = sort (s.successors ++ d ∷ []) s.did

    test : (contains d s.successors || d == s.did) ≡ false
    test = ground arith

    full : (n : ℕ) (xs : List Did) → drop n xs ≢ [] → length (take n xs) ≡ n
    full zero xs ne = refl
    full (suc n) [] ne = absurd (ne refl)
    full (suc n) (x ∷ xs) ne = ap suc (full n xs ne)

pub is_full_iff :
    (s : SuccessorSeq) → IsSuccessorSeq s → (is_full s ≡ true) ↔ (length s.successors ≡ s.max_num)
unfolding is_full
is_full_iff s w = (
  λ h. omega (arith, leb→le _ _ h, w.bounded, w.narrow),
  λ h. le→leb _ _ (omega (arith, w.bounded, w.narrow)),
)

-- `min` is an identifier of the ring, whether the sequence is empty or not.
pub min_did-IsDid : (s : SuccessorSeq) → IsSuccessorSeq s → IsDid (min_did s)
unfolding min_did
min_did-IsDid s w = by_list s.successors w.dids
  where
    by_list : (xs : List Did) → All IsDid xs → IsDid (or_self s.did (head? xs))
    by_list [] h = w.own
    by_list (x ∷ xs) h = h.0

-- An empty sequence answers with the node itself.
pub min_did-empty : (s : SuccessorSeq) → is_empty s ≡ true → min_did s ≡ s.did
unfolding min_did is_empty
min_did-empty s h = ground arith

-- With a successor, the nearest one is not the node itself.
pub min_did-other : (s : SuccessorSeq) → IsSuccessorSeq s → is_empty s ≡ false → min_did s ≢ s.did
unfolding min_did is_empty
min_did-other s w = by_list s.successors w.others
  where
    by_list :
        (xs : List Did)
        → All (λ d. d ≢ s.did) xs
        → (length xs == 0) ≡ false
        → or_self s.did (head? xs) ≢ s.did
    by_list [] h e = absurd (ground arith)
    by_list (x ∷ xs) h e = h.0
