-- ===== src/Successor/Examples.antt =====
-- The theorems on successor sequences at a full sequence, and a small run.
use rings_node.Base.{◌≡◌, ◌≢◌, ◌≤◌, refl, List, [], ◌∷◌, ◌++◌, arith, All, Perm, length, sort_by}
use rings_node.Did.{Did, sub, sort}
use rings_node.Successor.{SuccessorSeq, update, contains}
use rings_node.Successor.Invariant.{IsSuccessorSeq}
use rings_node.Successor.Nearest.{update_nearest}

abbrev full : SuccessorSeq
full = record { did = 10; max_num = 3; successors = 20 ∷ 30 ∷ 40 ∷ [] }

full-IsSuccessorSeq : IsSuccessorSeq full
unfolding sub
full-IsSuccessorSeq = record {
  own = omega arith;
  bounded = omega arith;
  narrow = omega arith;
  dids = omega arith;
  others = omega arith;
  distinct = omega arith;
  sorted = omega arith;
}

update_test : update full 15 ≡ record full { successors = 15 ∷ 20 ∷ 30 ∷ [] }
unfolding update contains sort sort_by sub
update_test = refl

update_nearest_example :
    (rest : List Did) × Perm ((update full 15).successors ++ rest) (15 ∷ 20 ∷ 30 ∷ 40 ∷ [])
    × All (λ r. All (λ k. sub k 10 ≤ sub r 10) (update full 15).successors) rest
    × (rest ≢ [] → length (update full 15).successors ≡ 3)
unfolding contains
update_nearest_example = update_nearest full 15 refl (omega arith)
