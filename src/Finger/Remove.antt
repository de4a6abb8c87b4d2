-- ===== src/Finger/Remove.antt =====
-- `FingerTable::remove`: what it leaves in each slot.
use rings_node.Base.{
  ℕ, zero, suc, ◌+◌, ◌-◌, ◌≤◌, ◌≡◌, ◌≢◌, refl, ap, sym, ◌∙◌, ◌⊎◌, inl, inr, Option, none, some,
  List, arith, ltb, leb, ◌==◌, if◌then◌else◌, ◌&&◌, length, get_elem?, set, get_elem?-lt,
  lt-of-get_elem?, length-set, get_elem?-set_self, get_elem?-set_ne, Bool-cases, false≢true, ==_iff,
  head?-drop, some-inj,
}
use rings_node.Did.{Did}
use rings_node.Finger.{FingerTable, slot_or_none, fill, remove_span, remove}
use rings_node.Finger.Invariant.{IsFingerTable, pow_mono}
use rings_node.Finger.Span.{IsSpan, remove-cases}

length-fill :
    (n i : ℕ) (v : Option Did) (xs : List (Option Did)) → length (fill n i v xs) ≡ length xs
unfolding fill
length-fill zero i v xs = refl
length-fill (suc n) i v xs = length-fill n (i + 1) v (set xs i v) ∙ length-set xs i v

get_elem?-fill :
    (n i : ℕ) (v : Option Did) (xs : List (Option Did)) (j : ℕ) (slot : Option Did)
    → get_elem? xs j ≡ some slot
    → get_elem? (fill n i v xs) j ≡ some (if leb i j && ltb j (i + n) then v else slot)
unfolding fill
get_elem?-fill zero i v xs j slot e = ground (arith, e)
get_elem?-fill (suc n) i v xs j slot e = elim (Bool-cases (i == j)) [
  | inl h ↦
      let q : i ≡ j = (==_iff i j).0 h in
      get_elem?-fill n (i + 1) v (set xs i v) j v
        (cc (q, get_elem?-set_self xs i v (omega (arith, lt-of-get_elem? xs j e))))
      ∙ ap some (ground arith)
  | inr h ↦
      get_elem?-fill n (i + 1) v (set xs i v) j slot
        (get_elem?-set_ne xs v (λ q. absurd (false≢true (sym h ∙ (==_iff i j).1 q))) ∙ e)
      ∙ ap some (ground arith)
]

slot_or_none-some :
    (o : Option (Option Did)) (v : Did) → slot_or_none o ≡ some v → o ≡ some (some v)
slot_or_none-some none v e = cc
slot_or_none-some (some slot) v e = ap some e

-- What a slot holds after the span from `f` to `l` was filled.
abbrev pub refilled : FingerTable → ℕ → ℕ → ℕ → Option Did → Option Did
refilled t f l k slot =
    if leb f k && leb k l then slot_or_none (get_elem? t.finger (l + 1)) else slot

module _ (t : FingerTable) (did : Did) (f l : ℕ) (s : IsSpan did t.finger f l) where
  span_slots :
      (k : ℕ) (slot : Option Did)
      → get_elem? t.finger k ≡ some slot
      → get_elem? (remove_span t (some f) (some l)).finger k ≡ some (refilled t f l k slot)
  unfolding remove_span
  span_slots k slot e = rw (head?-drop (l + 1) t.finger) (
      get_elem?-fill (l + 1 - f) f _ t.finger k slot e
      ∙ ap some (ground (arith, s.before l s.at_last)))

  -- A node after the removal stood in that slot before, or stands there in place of the removed one.
  refilled-cases :
      (k : ℕ) (slot : Option Did) (v : Did)
      → get_elem? t.finger k ≡ some slot
      → refilled t f l k slot ≡ some v
      → (v ≢ did) × ((slot ≡ some v) ⊎ ((k ≤ l) × (get_elem? t.finger (l + 1) ≡ some (some v))))
  refilled-cases k slot v e r = elim (Bool-cases (leb f k && leb k l)) [
    | inl h ↦
        let next : get_elem? t.finger (l + 1) ≡ some (some v) = slot_or_none-some _ v (rw h at r) in
        (
          λ q. absurd (omega (arith, s.after (l + 1) (next ∙ ap (λ d. some (some d)) q))),
          inr (ground arith, next),
        )
    | inr h ↦
        let same : slot ≡ some v = rw h at r in
        let old : get_elem? t.finger k ≡ some (some v) = e ∙ ap some same in
        (
          λ q.
              let at_did : get_elem? t.finger k ≡ some (some did) =
                old ∙ ap (λ d. some (some d)) q in
              false≢true (sym h ∙ ground (arith, s.before k at_did, s.after k at_did)),
          inl same,
        )
  ]

  span_found :
      (k : ℕ) (v : Did)
      → get_elem? (remove_span t (some f) (some l)).finger k ≡ some (some v)
      → (v ≢ did)
        × ((get_elem? t.finger k ≡ some (some v))
            ⊎ ((k ≤ l) × (get_elem? t.finger (l + 1) ≡ some (some v))))
  unfolding remove_span
  span_found k v e =
      let (slot, old) =
        get_elem?-lt t.finger k
          (omega (arith, lt-of-get_elem? _ k e, length-fill (l + 1 - f) f _ t.finger)) in
      let (ne, from) = refilled-cases k slot v old (some-inj (sym (span_slots k slot old) ∙ e)) in
      (ne, elim from [ inl q ↦ inl (old ∙ ap some q) | inr q ↦ inr q ])

  span-IsFingerTable : IsFingerTable t → IsFingerTable (remove_span t (some f) (some l))
  unfolding remove_span
  span-IsFingerTable w = record {
    own = w.own;
    sized = length-fill (l + 1 - f) f _ t.finger ∙ w.sized;
    bounded = w.bounded;
    reach = λ k v e. elim ((span_found k v e).1) [
      | inl old ↦ w.reach k v old
      | inr (le, next) ↦
          let (d, far) = w.reach (l + 1) v next in
          (d, omega (arith, far, pow_mono k (l + 1) (omega arith)))
    ];
  }

-- `remove` keeps a finger table well-formed: the node that fills the freed slots stood in a later
-- slot, so it lies far enough for them.
pub remove-IsFingerTable :
    (t : FingerTable) (did : Did) → IsFingerTable t → IsFingerTable (remove t did)
remove-IsFingerTable t did w = elim (remove-cases did t) [
  | inl (a, e) ↦ rw e w
  | inr (f, l, s, e) ↦ rw e (span-IsFingerTable t did f l s w)
]

-- After `remove` no slot holds the node, and a node that a slot holds was in the table before: in the
-- same slot, or in a later one.
pub remove_absent :
    (t : FingerTable) (did v : Did) (k : ℕ)
    → get_elem? (remove t did).finger k ≡ some (some v)
    → (v ≢ did) × ((j : ℕ) × (k ≤ j) × (get_elem? t.finger j ≡ some (some v)))
remove_absent t did v k e = elim (remove-cases did t) [
  | inl (a, q) ↦
      let old : get_elem? t.finger k ≡ some (some v) = rw q at e in
      (λ p. a k (old ∙ ap (λ d. some (some d)) p), (k, omega arith, old))
  | inr (f, l, s, q) ↦
      let (ne, from) = span_found t did f l s k v (rw q at e) in
      (
        ne,
        elim from [ inl old ↦ (k, omega arith, old) | inr (le, next) ↦ (l + 1, omega arith, next) ],
      )
]
