-- ===== src/Finger.antt =====
-- FingerTable of rings-core/src/dht/finger.rs. Slot `k` is meant for the first known node at least
-- `2 ^ k` steps clockwise from the owner. An index out of range panics where the code indexes.
pub mod Invariant
pub mod Join
pub mod Span
pub mod Remove
pub mod Closest
mod Examples
use rings_node.Base.{
  ℕ, zero, suc, ◌+◌, ◌-◌, ◌%◌, ◌^◌, Bool, true, false, Option, none, some, List, [], ◌∷◌, leb, ◌==◌,
  if◌then◌else◌, ◌||◌, get_elem?, set, drop, head?, last?, replicate,
}
use rings_node.Did.{Did, from_big_uint, BiasId, bias_of, pos, bias_lt}
use rings_node.Error.{Result, ok, panic, ◌>>=◌}

pub record FingerTable : Type 0 where
  pub did : Did
  pub size : ℕ
  pub finger : List (Option Did)
  pub fix_finger_index : ℕ

unfoldable pub new : Did → ℕ → FingerTable
new did size = record { did = did; size = size; finger = replicate size none; fix_finger_index = 0 }

-- `self.finger.iter().flatten().count()`
abbrev count_some : List (Option Did) → ℕ
count_some [] = 0
count_some (none ∷ xs) = count_some xs
count_some (some d ∷ xs) = suc (count_some xs)

unfoldable pub len : FingerTable → ℕ
len self = count_some self.finger

unfoldable pub is_empty : FingerTable → Bool
unfolding len
is_empty self = len self == 0

abbrev pub first_some : List (Option Did) → Option Did
first_some [] = none
first_some (none ∷ xs) = first_some xs
first_some (some d ∷ xs) = some d

unfoldable pub first : FingerTable → Option Did
first self = first_some self.finger

-- A missing slot reads as an empty one.
abbrev pub slot_or_none : Option (Option Did) → Option Did
slot_or_none none = none
slot_or_none (some slot) = slot

-- `get` and `get_ref`
unfoldable pub get : FingerTable → ℕ → Option Did
get self index = slot_or_none (get_elem? self.finger index)

-- `set`: an index out of range changes nothing.
unfoldable pub set_slot : FingerTable → ℕ → Did → FingerTable
set_slot self index did = record self { finger = set self.finger index (some did) }

unfoldable pub set_fix : FingerTable → Did → FingerTable
unfolding set_slot
set_fix self did = set_slot self self.fix_finger_index did

abbrev pub slot_eq : Option Did → Option Did → Bool
slot_eq none none = true
slot_eq (some a) (some b) = a == b
slot_eq _ _ = false

unfoldable pub any_slot : Option Did → List (Option Did) → Bool
any_slot v [] = false
any_slot v (x ∷ xs) = slot_eq x v || any_slot v xs

unfoldable pub contains : FingerTable → Option Did → Bool
unfolding any_slot
contains self v = any_slot v self.finger

-- The indexes of the slots that hold `did`, from index `i` on.
unfoldable pub indexes : ℕ → Did → List (Option Did) → List ℕ
indexes i did [] = []
indexes i did (x ∷ xs) =
    let rest = indexes (i + 1) did xs in if slot_eq x (some did) then i ∷ rest else rest

-- `for idx in first_idx..end_idx { self.finger[idx] = fix_id }`, with the rounds left.
unfoldable pub fill : ℕ → ℕ → Option Did → List (Option Did) → List (Option Did)
fill zero idx fix_id finger = finger
fill (suc n) idx fix_id finger = fill n (idx + 1) fix_id (set finger idx fix_id)

unfoldable pub remove_span : FingerTable → Option ℕ → Option ℕ → FingerTable
unfolding fill
remove_span self (some first_idx) (some last_idx) =
    let end_idx = last_idx + 1 in
    let fix_id = slot_or_none (head? (drop end_idx self.finger)) in
    record self { finger = fill (end_idx - first_idx) first_idx fix_id self.finger }
remove_span self _ _ = self

unfoldable pub remove : FingerTable → Did → FingerTable
remove self did = let ixs = indexes 0 did self.finger in remove_span self (head? ixs) (last? ixs)

-- One round of the loop of `join`.
unfoldable pub join_step : FingerTable → Did → ℕ → Result FingerTable
join_step self did k =
    let bid = bias_of did self.did in
    let start = from_big_uint (2 ^ k) in
    let joined = record self { finger = set self.finger k (some did) } in
    if leb start (pos bid)
    then elim (get_elem? self.finger k) [
      | none ↦ panic
      | some none ↦ ok joined
      | some (some v) ↦ if bias_lt bid (bias_of v self.did) then ok joined else ok self
    ]
    else ok self

unfoldable pub join_loop : ℕ → ℕ → FingerTable → Did → Result FingerTable
join_loop zero k self did = ok self
join_loop (suc n) k self did = do self' ← join_step self did k; join_loop n (k + 1) self' did

-- `for k in 0u32..self.size as u32`
unfoldable pub join : FingerTable → Did → Result FingerTable
join self did = join_loop (self.size % 2 ^ 32) 0 self did

-- The loop of `closest`, from index `n - 1` down.
unfoldable pub closest_loop : FingerTable → BiasId → ℕ → Result Did
closest_loop self bid zero = ok self.did
closest_loop self bid (suc i) =
    let lower = closest_loop self bid i in
    elim (get_elem? self.finger i) [
      | none ↦ panic
      | some none ↦ lower
      | some (some v) ↦ if bias_lt (bias_of v self.did) bid then ok v else lower
    ]

unfoldable pub closest : FingerTable → Did → Result Did
closest self did = closest_loop self (bias_of did self.did) self.size
