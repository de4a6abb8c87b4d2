-- ===== src/Chord/Examples.antt =====
-- The theorems on rings at a new node, and at one that knows a successor.
use rings_node.Base.{
  ℕ, ◌≡◌, ◌≤◌, ◌<◌, ◌⊎◌, refl, false, Option, none, some, [], ◌∷◌, arith, All, get_elem?,
}
use mathlib.Core.List.{Mem}
use rings_node.Error.{ok}
use rings_node.Did.{Did, sub}
use rings_node.Finger.Join.{join_slot}
use rings_node.Finger.Closest.{Closest}
use rings_node.Successor
use rings_node.Successor.{SuccessorSeq}
use rings_node.Base.{ltb, ◌||◌, not, if◌then◌else◌}
use rings_node.Action.{PeerRingAction, some_node, remote_action}
use rings_node.Action
use rings_node.Chord.{new_with_storage, join, find_successor, fix_fingers}
use rings_node.Chord.Ring.{IsPeerRing}
use rings_node.Chord.Join.{join_other}
use rings_node.Chord.Lookup.{Answers, find_successor_returns}
use rings_node.Chord.Remove.{remove_forgets, remove-eq, removed, IsForgotten}
use rings_node.Chord.Notify.{notify_all, notify_all_lem, pred_dist}
use rings_node.Chord.FixFingers.{fix_fingers_alone, fix_fingers_last, HoldsItself}
use rings_node.Chord.Samples.{
  Ring, alone, alone-IsPeerRing, alone-IsUnlocked, pair, pair-IsPeerRing, pair-IsUnlocked,
}

join_other_example :
    (r' : Ring) × (join alone 20
      ≡ ok (r', remote_action 20 (Action.find_successor_for_connect alone.did)))
    × IsPeerRing r'
    × ((k : ℕ) (slot : Option Did)
        → get_elem? alone.finger.value.finger k ≡ some slot
        → get_elem? r'.finger.value.finger k ≡ some (join_slot alone.did 20 k slot))
    × (r'.successor_seq.value ≡ (
        if ltb (sub 20 alone.did) (sub (Successor.max_did alone.successor_seq.value) alone.did)
          || not (Successor.is_full alone.successor_seq.value)
        then Successor.update alone.successor_seq.value 20
        else alone.successor_seq.value))
    × (r'.predecessor ≡ alone.predecessor)
unfolding alone pair new_with_storage
join_other_example =
    join_other alone 20 alone-IsPeerRing (omega arith) alone-IsUnlocked (omega arith)

find_successor_returns_example :
    ((n : Did) × (find_successor pair 15 ≡ ok (some_node n)) × Answers pair 15 n)
    ⊎ ((n : Did) × (find_successor pair 15 ≡ ok (remote_action n (Action.find_successor 15)))
        × Closest pair.finger.value 15 160 n
        × (sub (Successor.min_did pair.successor_seq.value) 10 < sub 15 10)
        × (Successor.is_empty pair.successor_seq.value ≡ false))
unfolding alone pair new_with_storage
find_successor_returns_example = find_successor_returns pair 15 pair-IsPeerRing pair-IsUnlocked

-- The ring that `remove` leaves of `pair`.
abbrev left : Ring
left = removed pair 20

remove_forgets_example : IsForgotten 20 left
remove_forgets_example = remove_forgets pair left 20 (remove-eq pair 20 pair-IsUnlocked)

notify_all_lem_example :
    (r' : Ring) × (notify_all pair (30 ∷ 40 ∷ 25 ∷ []) ≡ ok r')
    × (r'.did ≡ 10)
    × (0 ≤ pred_dist 10 r'.predecessor.value)
    × All (λ d. sub d 10 ≤ pred_dist 10 r'.predecessor.value) (30 ∷ 40 ∷ 25 ∷ [])
    × ((r'.predecessor.value ≡ none)
        ⊎ ((d : Did) × Mem d (30 ∷ 40 ∷ 25 ∷ []) × (r'.predecessor.value ≡ some d)))
unfolding alone pair new_with_storage
notify_all_lem_example = notify_all_lem (30 ∷ 40 ∷ 25 ∷ []) pair refl

fix_fingers_alone_example : HoldsItself (fix_fingers alone).0.finger.value
unfolding Successor.is_empty alone new_with_storage Successor.new
fix_fingers_alone_example = fix_fingers_alone alone alone-IsPeerRing alone-IsUnlocked refl

fix_fingers_last_example :
    get_elem? (fix_fingers pair).0.finger.value.finger 159 ≡ get_elem? pair.finger.value.finger 159
fix_fingers_last_example = fix_fingers_last pair
