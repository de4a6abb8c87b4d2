-- ===== src/Finger/Examples.antt =====
-- The theorems on finger tables at a table of five slots, and small runs.
use rings_node.Base.{
  ℕ, zero, suc, ◌^◌, ◌≤◌, ◌≡◌, refl, Option, none, some, List, [], ◌∷◌, arith, get_elem?, subst,
  some-inj,
}
use rings_node.Did.{Did, IsDid, sub}
use rings_node.Error.{ok}
use rings_node.Finger.{
  FingerTable, join, remove, closest, indexes, remove_span, join_loop, join_step, closest_loop,
}
use rings_node.Finger.Invariant.{IsFingerTable}
use rings_node.Finger.Join.{join_slot, join_lem}
use rings_node.Finger.Closest.{Closest, closest_lem}

-- The owner 10 with nodes 12 and 20: one in the slots 0 and 1, the other in slot 3.
abbrev slots : List (Option Did)
slots = some 12 ∷ some 12 ∷ none ∷ some 20 ∷ none ∷ []

abbrev table : FingerTable
table = record { did = 10; size = 5; finger = slots; fix_finger_index = 0 }

far_enough :
    (k : ℕ) (x v : Did)
    → IsDid x
    → 2 ^ k ≤ sub x 10
    → some (some x) ≡ some (some v)
    → IsDid v × (2 ^ k ≤ sub v 10)
far_enough k x v i h e = subst (λ y. IsDid y × (2 ^ k ≤ sub y 10)) (some-inj (some-inj e)) (i, h)

reach : (k : ℕ) (v : Did) → get_elem? slots k ≡ some (some v) → IsDid v × (2 ^ k ≤ sub v 10)
unfolding sub
reach zero v e = far_enough 0 12 v (omega arith) (omega arith) e
reach (suc zero) v e = far_enough 1 12 v (omega arith) (omega arith) e
reach (suc (suc zero)) v e = cc
reach (suc (suc (suc zero))) v e = far_enough 3 20 v (omega arith) (omega arith) e
reach (suc (suc (suc (suc zero)))) v e = cc
reach (suc (suc (suc (suc (suc k))))) v e = cc

table-IsFingerTable : IsFingerTable table
table-IsFingerTable = record {
  own = omega arith;
  sized = refl;
  bounded = omega arith;
  reach = reach;
}

join_test :
    join table 15 ≡ ok (record table { finger = some 12 ∷ some 12 ∷ some 15 ∷ some 20 ∷ none ∷ [] })
unfolding join join_loop join_step sub rings_node.Did.bias_of rings_node.Did.new_bias
    rings_node.Did.bias_lt rings_node.Did.cmp
join_test = refl

join_lem_example :
    (t' : FingerTable) × (join table 15 ≡ ok t')
    × IsFingerTable t'
    × (t'.did ≡ 10)
    × (t'.size ≡ 5)
    × (t'.fix_finger_index ≡ 0)
    × ((k : ℕ) (slot : Option Did)
        → get_elem? slots k ≡ some slot
        → get_elem? t'.finger k ≡ some (join_slot 10 15 k slot))
join_lem_example = join_lem table 15 table-IsFingerTable (omega arith)

remove_test : remove table 12 ≡ record table { finger = none ∷ none ∷ none ∷ some 20 ∷ none ∷ [] }
unfolding remove remove_span indexes
remove_test = refl

closest_test : closest table 19 ≡ ok 12
unfolding closest closest_loop sub rings_node.Did.bias_of rings_node.Did.new_bias
    rings_node.Did.bias_lt rings_node.Did.cmp
closest_test = refl

closest_lem_example : (r : Did) × (closest table 19 ≡ ok r) × Closest table 19 5 r
closest_lem_example = closest_lem table 19 table-IsFingerTable
