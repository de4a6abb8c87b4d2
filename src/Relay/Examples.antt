-- ===== src/Relay/Examples.antt =====
-- The theorems on relays at a message that went from node 1 over 2 and 3 to 4, and at a cycle.
use mathlib.Core.List.{reverse}
use rings_node.Base.{
  ℕ, ◌≡◌, ◌≢◌, ◌↔◌, refl, true, none, some, List, [], ◌∷◌, arith, get_elem?, some-inj, zero, suc,
}
use rings_node.Error.{ok}
use rings_node.Did.{Did}
use rings_node.Relay.{
  MessageRelay, method_send, validate, report, has_repeat, has_infinite_loop, positions, matches,
  loops_at,
}
use rings_node.Relay.Retrace.{travel, report_retraces}
use rings_node.Relay.Loop.{IsLoop, has_infinite_loop-IsLoop}

abbrev sent : MessageRelay
sent = record {
  method = method_send;
  path = 1 ∷ 2 ∷ 3 ∷ 4 ∷ [];
  path_end_cursor = 0;
  next_hop = none;
  destination = 4;
}

sent-valid : validate sent ≡ ok tt
unfolding validate has_repeat has_infinite_loop positions matches loops_at
sent-valid = refl

once : (j : ℕ) → get_elem? {A = Did} (1 ∷ 2 ∷ 3 ∷ 4 ∷ []) (suc j) ≢ some 1
once zero e = absurd (omega (arith, some-inj e))
once (suc zero) e = absurd (omega (arith, some-inj e))
once (suc (suc zero)) e = absurd (omega (arith, some-inj e))
once (suc (suc (suc j))) e = cc

report_retraces_example :
    (p : MessageRelay) × (p' : MessageRelay) × (report sent ≡ ok p)
    × (travel 3 p.next_hop p ≡ ok (3 ∷ 2 ∷ 1 ∷ [], p'))
    × (p'.next_hop ≡ none)
report_retraces_example =
    report_retraces sent 1 refl sent-valid refl (omega arith) (omega arith) refl once

abbrev cycle : List Did
cycle = 9 ∷ 1 ∷ 2 ∷ 1 ∷ 2 ∷ 1 ∷ 2 ∷ []

cycle_found : has_infinite_loop cycle ≡ true
unfolding has_infinite_loop positions matches loops_at
cycle_found = refl

has_infinite_loop-IsLoop_example :
    has_infinite_loop cycle ≡ true ↔ ((d : Did) × (l : ℕ) × IsLoop (reverse cycle) d l)
has_infinite_loop-IsLoop_example = has_infinite_loop-IsLoop cycle

-- The path ends after one node of the third stretch: only that one is compared.
ends_early : has_infinite_loop (7 ∷ 1 ∷ 7 ∷ 2 ∷ 7 ∷ []) ≡ true
unfolding has_infinite_loop positions matches loops_at
ends_early = refl
