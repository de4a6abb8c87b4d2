-- ===== src/Measure/Count.antt =====
-- What a counter says after any calls of `incr`, for its peer and for others.
use rings_node.Base.{
  ℕ, zero, suc, ◌+◌, ◌%◌, ◌^◌, ◌<◌, ◌≡◌, refl, ap, sym, subst, ◌∙◌, inl, inr, Bool, true, false,
  Option, some, List, [], ◌∷◌, arith, ltb, ◌==◌, Bool-cases, All, if◌then◌else◌,
}
use rings_node.Did.{Did}
use rings_node.Chord.{Mutex, new_mutex, write}
use rings_node.Swarm.{MeasureCounter, sent, failed_to_send, received, failed_to_receive}
use rings_node.Measure.{
  PeriodicCounter, PeriodicMeasure, CounterStorage, tag, same_key, incr_counter, get_counter,
  set_counter, ensure_counter, save_counter, incr, get_count,
}

-- A call of `incr`.
pub record Call : Type 0 where
  pub now : ℕ
  pub did : Did
  pub counter : MeasureCounter

next : (a n : ℕ) → ((a + 1) % 2 ^ 64 + n) % 2 ^ 64 ≡ (a + (1 + n)) % 2 ^ 64
next a n = omega arith

refilled : (n : ℕ) → (if n == 0 then 0 else n) ≡ n
refilled n = ground arith

get_counter_lem :
    (now : ℕ) (c : PeriodicCounter)
    → (get_counter now c).0.0 ≡ (
        if ltb now (c.previous + c.period)
        then if c.previous_count == 0 then c.count else c.previous_count
        else c.count)
get_counter_lem now c = elim (Bool-cases (ltb now (c.previous + c.period))) [
  | inl q ↦ rw q refl
  | inr q ↦ rw q (refilled c.count)
]

of_tag : ℕ → MeasureCounter
of_tag zero = sent
of_tag (suc zero) = failed_to_send
of_tag (suc (suc zero)) = received
of_tag (suc (suc (suc _))) = failed_to_receive

of_tag-tag : (k : MeasureCounter) → of_tag (tag k) ≡ k
unfolding of_tag
of_tag-tag sent = refl
of_tag-tag failed_to_send = refl
of_tag-tag received = refl
of_tag-tag failed_to_receive = refl

tag-inj : (j k : MeasureCounter) → tag j ≡ tag k → j ≡ k
tag-inj j k e = sym (of_tag-tag j) ∙ ap of_tag e ∙ of_tag-tag k

same_key_refl : (did : Did) (k : MeasureCounter) → same_key did k did k ≡ true
same_key_refl did k = ground arith

same_key-did : (did did' : Did) (k k' : MeasureCounter) → same_key did k did' k' ≡ true → did ≡ did'
same_key-did did did' k k' e = ground arith

same_key-counter : (did did' : Did) (k k' : MeasureCounter) → same_key did k did' k' ≡ true → k ≡ k'
same_key-counter did did' k k' e = tag-inj k k' (ground arith)

module _ {S : Type 0} where
  set-other :
      (did did' : Did) (k k' : MeasureCounter) (c : Mutex PeriodicCounter) (m : PeriodicMeasure S)
      → same_key did' k' did k ≡ false
      → (set_counter did' k' c m).counters did k ≡ m.counters did k
  set-other did did' k k' c m e = rw e refl

  if-counters :
      (b : Bool) (did : Did) (k : MeasureCounter) (m n : PeriodicMeasure S)
      {x : Option (Mutex PeriodicCounter)}
      → m.counters did k ≡ x
      → n.counters did k ≡ x
      → (if b then m else n).counters did k ≡ x
  if-counters true did k m n hm hn = hm
  if-counters false did k m n hm hn = hn

module _ {S : Type 0} (st : CounterStorage S) where
  abbrev pub calls : List Call → PeriodicMeasure S → PeriodicMeasure S
  calls [] m = m
  calls (c ∷ l) m = calls l (incr st c.now c.did c.counter m)

  incr-same :
      (now : ℕ) (did : Did) (k : MeasureCounter) (m : PeriodicMeasure S) (c : PeriodicCounter)
      → m.counters did k ≡ some (new_mutex c)
      → now < c.previous + c.period
      → (incr st now did k m).counters did k
        ≡ some (new_mutex (record c { count = (c.count + 1) % 2 ^ 64 }))
  unfolding incr ensure_counter save_counter
  incr-same now did k m c e h =
      let q : ltb now (c.previous + c.period) ≡ true = ground arith in
      rw (e, q, same_key_refl did k) refl

  incr-other :
      (now : ℕ) (did did' : Did) (k k' : MeasureCounter) (m : PeriodicMeasure S)
      → same_key did' k' did k ≡ false
      → (incr st now did' k' m).counters did k ≡ m.counters did k
  unfolding incr ensure_counter save_counter
  incr-other now did did' k k' m e =
      let c = ensure_counter st now did' k' m in
      let r = incr_counter now c.value in
      if-counters c.poisoned did k _ _ (set-other did did' k k' c m e) (
        if-counters r.0.1 did k
          (save_counter st did' k' r.0.0 (set_counter did' k' (write c r.1) m)) _
          (set-other did did' k k' (write c r.1) m e) (set-other did did' k k' (write c r.1) m e))

  incr-named :
      (now : ℕ) (did did' : Did) (k k' : MeasureCounter) (m : PeriodicMeasure S)
      (c : PeriodicCounter)
      → same_key did' k' did k ≡ true
      → m.counters did k ≡ some (new_mutex c)
      → now < c.previous + c.period
      → (incr st now did' k' m).counters did k
        ≡ some (new_mutex (record c { count = (c.count + 1) % 2 ^ 64 }))
  incr-named now did did' k k' m c q e h =
      subst
        (λ d.
          (incr st now d k' m).counters did k
          ≡ some (new_mutex (record c { count = (c.count + 1) % 2 ^ 64 })))
        (sym (same_key-did did' did k' k q))
        (subst
          (λ j.
            (incr st now did j m).counters did k
            ≡ some (new_mutex (record c { count = (c.count + 1) % 2 ^ 64 })))
          (sym (same_key-counter did' did k' k q)) (incr-same now did k m c e h))

  -- The calls for one peer and one kind.
  abbrev pub number_for : Did → MeasureCounter → List Call → ℕ
  number_for did k [] = 0
  number_for did k (c ∷ l) =
      let rest = number_for did k l in if same_key c.did c.counter did k then 1 + rest else rest

  -- What the counter is after the calls.
  raised : PeriodicCounter → ℕ → PeriodicCounter
  raised c n = record c { count = (c.count + n) % 2 ^ 64 }

  abbrev pub Timely : Did → MeasureCounter → ℕ → List Call → Type 0
  Timely did k end = All (λ c. same_key c.did c.counter did k ≡ true → c.now < end)

  calls-counter :
      (did : Did) (k : MeasureCounter) (l : List Call) (m : PeriodicMeasure S) (c : PeriodicCounter)
      → c.count < 2 ^ 64
      → m.counters did k ≡ some (new_mutex c)
      → Timely did k (c.previous + c.period) l
      → (calls l m).counters did k ≡ some (new_mutex (raised c (number_for did k l)))
  unfolding raised
  calls-counter did k [] m c small e t =
      e ∙ ap (λ n. some (new_mutex (record c { count = n }))) (omega arith)
  calls-counter did k (a ∷ l) m c small e (now, t) =
      elim (Bool-cases (same_key a.did a.counter did k)) [
        | inr q ↦
            calls-counter did k l (incr st a.now a.did a.counter m) c small
              (incr-other a.now did a.did k a.counter m q ∙ e) t
            ∙ ap (λ n. some (new_mutex (raised c n))) (rw q refl)
        | inl q ↦
            calls-counter did k l (incr st a.now a.did a.counter m)
              (record c { count = (c.count + 1) % 2 ^ 64 }) (omega arith)
              (incr-named a.now did a.did k a.counter m c q e (now q)) t
            ∙ ap (λ n. some (new_mutex (record c { count = n })))
                (rw q (next c.count (number_for did k l)))
      ]

  -- On a counter that is not poisoned, after calls of `incr` for any peers and kinds in any order, those for
  -- this one within the running period of it: `get_count` within the period gives the count of the period
  -- before, or the running count where that is 0; after the period it gives the running count. The
  -- running count has all the calls for this peer and kind, and none of the others.
  pub get_count_lem :
      (did : Did) (k : MeasureCounter) (l : List Call) (now : ℕ) (m : PeriodicMeasure S)
      (c : PeriodicCounter)
      → c.count < 2 ^ 64
      → m.counters did k ≡ some (new_mutex c)
      → Timely did k (c.previous + c.period) l
      → let running = (c.count + number_for did k l) % 2 ^ 64 in
        (get_count st now did k (calls l m)).0 ≡ (
          if ltb now (c.previous + c.period)
          then if c.previous_count == 0 then running else c.previous_count
          else running)
  unfolding get_count ensure_counter save_counter raised
  get_count_lem did k l now m c small e t =
      rw (calls-counter did k l m c small e t) (get_counter_lem now (raised c (number_for did k l)))
