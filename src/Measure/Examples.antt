-- ===== src/Measure/Examples.antt =====
-- Peer 7 is counted twice within its hour, among calls for others, and asked for within the hour.
use rings_node.Base.{◌≡◌, refl, none, some, List, [], ◌∷◌, arith}
use rings_node.Chord.{new_mutex}
use rings_node.Swarm.{sent, received}
use rings_node.Measure.{
  PeriodicMeasure, CounterStorage, new_counter, new_measure, duration, get_count, ensure_counter,
  save_counter,
}
use rings_node.Measure.Count.{Call, calls, get_count_lem}

-- A storage that keeps nothing.
abbrev storage : CounterStorage (Unit {0})
storage = record { gen_storage_key = λ _ _. "key"; get = λ _ _. some none; put = λ s _ _. some s }

abbrev measure : PeriodicMeasure (Unit {0})
measure = (get_count storage 1000 7 sent (new_measure tt)).1

abbrev uses : List Call
uses =
    record { now = 1100; did = 7; counter = sent }
    ∷ record { now = 1200; did = 8; counter = sent }
    ∷ record { now = 1300; did = 7; counter = received }
    ∷ record { now = 1400; did = 7; counter = sent }
    ∷ []

counter_test : measure.counters 7 sent ≡ some (new_mutex (new_counter 1000 duration 0))
unfolding get_count ensure_counter save_counter
counter_test = refl

get_count_lem_example : (get_count storage 2000 7 sent (calls storage uses measure)).0 ≡ 2
get_count_lem_example =
    get_count_lem storage 7 sent uses 2000 measure (new_counter 1000 duration 0) (omega arith)
      counter_test
      (λ _. omega arith, (λ _. omega arith, (λ _. omega arith, (λ _. omega arith, tt))))
