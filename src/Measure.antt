-- ===== src/Measure.antt =====
-- `PeriodicMeasure` of src/src/measure.rs, which counts what a node exchanges with its peers. The persistent
-- storage and the printing of its keys are the record `CounterStorage`, a parameter; `none` is a read
-- or a write that fails. `now` is what `Utc::now` gives, in nanoseconds. A `u64` wraps.
pub mod Count
mod Examples
use rings_node.Base.{
  ℕ, ◌+◌, ◌*◌, ◌%◌, ◌^◌, Bool, true, false, ◌&&◌, Option, none, some, String, ltb, ◌==◌,
  if◌then◌else◌,
}
use rings_node.Did.{Did}
use rings_node.Chord.{Mutex, new_mutex, write}
use rings_node.Swarm.{MeasureCounter, sent, failed_to_send, received, failed_to_receive}

-- `DURATION`, in seconds.
abbrev pub duration : ℕ
duration = 60 * 60

pub record PeriodicCounter : Type 0 where
  pub period : ℕ
  pub count : ℕ
  pub previous : ℕ
  pub previous_count : ℕ

-- `PeriodicCounter::new`
abbrev pub new_counter : ℕ → ℕ → ℕ → PeriodicCounter
new_counter now period previous_count = record {
  period = period * 10 ^ 9;
  count = 0;
  previous = now;
  previous_count = previous_count;
}

-- The difference of the times may be negative.
abbrev pub refresh : ℕ → PeriodicCounter → Bool × PeriodicCounter
refresh now self =
    if ltb now (self.previous + self.period)
    then (false, self)
    else (true, record self { previous_count = self.count; count = 0; previous = now })

abbrev pub barely_get : PeriodicCounter → ℕ
barely_get self = if self.previous_count == 0 then self.count else self.previous_count

-- `PeriodicCounter::incr`
abbrev pub incr_counter : ℕ → PeriodicCounter → (ℕ × Bool) × PeriodicCounter
incr_counter now self =
    let r = refresh now self in
    let self = record r.1 { count = (r.1.count + 1) % 2 ^ 64 } in ((barely_get self, r.0), self)

-- `PeriodicCounter::get`
abbrev pub get_counter : ℕ → PeriodicCounter → (ℕ × Bool) × PeriodicCounter
get_counter now self = let r = refresh now self in ((barely_get r.1, r.0), r.1)

pub record CounterStorage (S : Type 0) : Type 0 where
  pub gen_storage_key : Did → MeasureCounter → String
  pub get : S → String → Option (Option ℕ)
  pub put : S → String → ℕ → Option S

abbrev pub tag : MeasureCounter → ℕ
tag sent = 0
tag failed_to_send = 1
tag received = 2
tag failed_to_receive = 3

-- `PartialEq` of the keys
abbrev pub same_key : Did → MeasureCounter → Did → MeasureCounter → Bool
same_key did counter did' counter' = did == did' && tag counter == tag counter'

pub record PeriodicMeasure (S : Type 0) : Type 0 where
  pub storage : S
  pub counters : Did → MeasureCounter → Option (Mutex PeriodicCounter)

abbrev pub stored : Option (Option ℕ) → ℕ
stored (some (some count)) = count
stored (some none) = 0
stored none = 0

abbrev pub or_insert :
    Option (Mutex PeriodicCounter) → Mutex PeriodicCounter → Mutex PeriodicCounter
or_insert (some c) _ = c
or_insert none c = c

abbrev pub saved : {S : Type 0} → Option S → S → S
saved (some s) _ = s
saved none s = s

module _ {S : Type 0} where
  -- `PeriodicMeasure::new`
  abbrev pub new_measure : S → PeriodicMeasure S
  new_measure storage = record { storage = storage; counters = λ _ _. none }

  abbrev pub set_counter :
      Did → MeasureCounter → Mutex PeriodicCounter → PeriodicMeasure S → PeriodicMeasure S
  set_counter did counter c self = record self {
    counters = λ d k. if same_key did counter d k then some c else self.counters d k;
  }

  module _ (st : CounterStorage S) where
    -- The counter, which is then in the map.
    unfoldable pub ensure_counter :
        ℕ → Did → MeasureCounter → PeriodicMeasure S → Mutex PeriodicCounter
    ensure_counter now did counter self =
        let count = stored (st.get self.storage (st.gen_storage_key did counter)) in
        or_insert (self.counters did counter) (new_mutex (new_counter now duration count))

    unfoldable pub save_counter : Did → MeasureCounter → ℕ → PeriodicMeasure S → PeriodicMeasure S
    save_counter did counter count self = record self {
      storage = saved (st.put self.storage (st.gen_storage_key did counter) count) self.storage;
    }

    unfoldable pub incr : ℕ → Did → MeasureCounter → PeriodicMeasure S → PeriodicMeasure S
    unfolding ensure_counter save_counter
    incr now did counter self =
        let c = ensure_counter now did counter self in
        if c.poisoned
        then set_counter did counter c self
        else let r = incr_counter now c.value in
          let self = set_counter did counter (write c r.1) self in
          if r.0.1 then save_counter did counter r.0.0 self else self

    unfoldable pub get_count : ℕ → Did → MeasureCounter → PeriodicMeasure S → ℕ × PeriodicMeasure S
    unfolding ensure_counter save_counter
    get_count now did counter self =
        let c = ensure_counter now did counter self in
        if c.poisoned
        then (0, set_counter did counter c self)
        else let r = get_counter now c.value in
          let self = set_counter did counter (write c r.1) self in
          (r.0.0, if r.0.1 then save_counter did counter r.0.0 self else self)
