-- ===== src/Relay.antt =====
-- MessageRelay of rings-core/src/message/protocols/relay.rs: how a message finds its next hop, and a
-- report its way back. A `usize` has 64 bits; the cursor comes with the message, so sums with it wrap.
pub mod Reverse
pub mod Retrace
pub mod Positions
pub mod Thrice
pub mod Loop
mod Examples
use mathlib.Core.List.{reverse}
use rings_node.Base.{
  ℕ, zero, suc, ◌+◌, ◌-◌, ◌%◌, ◌^◌, Bool, true, false, not, ◌||◌, ◌&&◌, Option, none, some, List,
  [], ◌∷◌, ◌++◌, min, length, get_elem?, head?, last?, take, drop, ltb, leb, ◌==◌, if◌then◌else◌,
}
use rings_node.Error.{
  Result, ok, err, panic, ◌>>=◌, invalid_next_hop, cannot_infer_next_hop, report_need_send,
  reset_destination_need_send, invalid_relay_path, invalid_relay_destination, infinite_relay_path,
}
use rings_node.Did.{Did}

-- `SEND` and `REPORT`
pub data RelayMethod : Type 0 where
  method_send method_report : RelayMethod

pub record MessageRelay : Type 0 where
  pub method : RelayMethod
  pub path : List Did
  pub path_end_cursor : ℕ
  pub next_hop : Option Did
  pub destination : Did

abbrev is_send : RelayMethod → Bool
is_send method_send = true
is_send method_report = false

abbrev unwrap_or : ℕ → Option ℕ → ℕ
unwrap_or d none = d
unwrap_or d (some n) = n

-- `MessageRelay::new`
abbrev pub new_relay : RelayMethod → List Did → Option ℕ → Option Did → Did → MessageRelay
new_relay method path path_end_cursor next_hop destination = record {
  method = method;
  path = path;
  path_end_cursor = unwrap_or 0 path_end_cursor;
  next_hop = next_hop;
  destination = destination;
}

-- Indexing, and `unwrap`: nothing there is a panic.
abbrev pub or_panic {ℓ} : {A : Type ℓ} → Option A → Result A
or_panic none = panic
or_panic (some a) = ok a

abbrev pub infinite_loop_tolerance : ℕ
infinite_loop_tolerance = 3

-- The indexes, from `i` on, at which `d` stands.
unfoldable pub positions : ℕ → Did → List Did → List ℕ
positions i d [] = []
positions i d (x ∷ xs) = let rest = positions (i + 1) d xs in if x == d then i ∷ rest else rest

-- The loop over the three lists in step, from index `i`, which ends at index `bound`.
unfoldable pub matches : ℕ → ℕ → List Did → List Did → List Did → Bool
matches i bound (x ∷ p1) (y ∷ p2) (z ∷ p3) =
    let rest = matches (i + 1) bound p1 p2 p3 in
    if not (x == y && y == z) then false else if i == bound then true else rest
matches i bound _ _ _ = true

-- The test on the first three indexes; `rev` is the reversed path.
unfoldable pub loops_at : List Did → List ℕ → Bool
unfolding matches
loops_at rev (i0 ∷ i1 ∷ i2 ∷ _) =
    let min_len = min (min (i1 - i0) (i2 - i1)) (length rev - i2) in
    matches 0 (min_len - 1) (drop i0 rev) (drop i1 rev) (drop i2 rev) && (i1 - i0 == i2 - i1)
loops_at rev _ = false

unfoldable pub has_infinite_loop : List Did → Bool
unfolding positions loops_at
has_infinite_loop path = elim (last? path) [
  | none ↦ false
  | some last ↦
      loops_at (reverse path) (take infinite_loop_tolerance (positions 0 last (reverse path)))
]

-- `self.path.windows(2).any(|w| w[0] == w[1])`
unfoldable pub has_repeat : List Did → Bool
has_repeat [] = false
has_repeat (x ∷ []) = false
has_repeat (x ∷ y ∷ xs) = x == y || has_repeat (y ∷ xs)

-- `Iterator::position`
unfoldable pub position : Did → List Did → Option ℕ
position d [] = none
position d (x ∷ xs) =
    let rest = position d xs in
    if x == d then some 0 else elim rest [ none ↦ none | some n ↦ some (suc n) ]

unfoldable pub validate : MessageRelay → Result (Unit {0})
unfolding has_repeat
validate self =
    if has_repeat self.path
    then err invalid_relay_path
    else if is_send self.method
    then (if has_infinite_loop self.path then err infinite_relay_path else ok tt)
    else do
      first ← or_panic (head? self.path)
      if first == self.destination then ok tt else err invalid_relay_destination

unfoldable pub origin : MessageRelay → Result Did
origin self = or_panic (head? self.path)

unfoldable pub sender : MessageRelay → Result Did
sender self = if is_send self.method then origin self else or_panic (last? self.path)

unfoldable pub path_prev : MessageRelay → Result (Option Did)
path_prev self =
    if ltb (length self.path) ((self.path_end_cursor + 2) % 2 ^ 64) then ok none else do
      prev ←
          or_panic
            (get_elem? self.path ((length self.path + 2 ^ 65 - 2 - self.path_end_cursor) % 2 ^ 64))
      ok (some prev)

abbrev pub next_is : Option Did → Did → Bool
next_is none d = false
next_is (some n) d = n == d

-- The `SEND` branch of `relay`.
abbrev pub send_hop : MessageRelay → Did → Option Did → MessageRelay
send_hop self current next_hop = record self {
  path = self.path ++ current ∷ [];
  next_hop = next_hop;
}

-- The cursor moves to where `current` was found, if it was.
abbrev pub moved : MessageRelay → Option ℕ → MessageRelay
moved self none = self
moved self (some pos) = record self { path_end_cursor = (self.path_end_cursor + pos) % 2 ^ 64 }

-- `next_hop.or_else(|| self.path_prev())`
abbrev pub or_prev : Option Did → MessageRelay → Result (Option Did)
or_prev (some n) self = ok (some n)
or_prev none self = path_prev self

abbrev pub both_none : Option ℕ → Option Did → Bool
both_none none none = true
both_none _ _ = false

-- The `REPORT` branch of `relay`.
unfoldable pub report_hop : MessageRelay → Did → Option Did → Result MessageRelay
report_hop self current next_hop =
    if next_is self.next_hop self.destination
    then ok (record self { path_end_cursor = length self.path - 1; next_hop = none })
    else let pos = position current (drop self.path_end_cursor (reverse self.path)) in
      if both_none pos next_hop then err cannot_infer_next_hop else do
        next ← or_prev next_hop (moved self pos)
        ok (record (moved self pos) { next_hop = next })

-- Whether `next_hop` is set and is another node.
abbrev pub other_hop : Option Did → Did → Bool
other_hop none current = false
other_hop (some n) current = not (n == current)

unfoldable pub relay : MessageRelay → Did → Option Did → Result MessageRelay
relay self current next_hop = do
  _ ← validate self
  if other_hop self.next_hop current
      then err invalid_next_hop
      else if is_send self.method
      then ok (send_hop self current next_hop)
      else report_hop self current next_hop

unfoldable pub report : MessageRelay → Result MessageRelay
report self =
    if not (is_send self.method)
    then err report_need_send
    else if ltb (length self.path) 2
    then err cannot_infer_next_hop
    else do
      prev ← path_prev self
      from ← sender self
      ok (record {
        method = method_report;
        path = self.path;
        path_end_cursor = 0;
        next_hop = prev;
        destination = from;
      })

unfoldable pub reset_destination : MessageRelay → Did → Result MessageRelay
reset_destination self destination =
    if is_send self.method
    then ok (record self { destination = destination })
    else err reset_destination_need_send
