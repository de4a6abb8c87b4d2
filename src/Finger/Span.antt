-- ===== src/Finger/Span.antt =====
-- The slots that `FingerTable::remove` finds: from the first to the last one that hold the node.
use rings_node.Base.{
  ℕ, zero, suc, ◌+◌, ◌≤◌, ◌≡◌, ◌≢◌, ◌⊎◌, inl, inr, Option, none, some, List, [], ◌∷◌, arith,
  get_elem?, Bool-cases, Option-cases, true, false, head?, last?, last?-ne-none, last?-cons-some,
  last?-cons-none, last?-of-head?, some-inj,
}
use rings_node.Did.{Did}
use rings_node.Finger.{FingerTable, indexes, slot_eq, remove_span, remove}

abbrev pub Absent : Did → List (Option Did) → Type 0
Absent did xs = (k : ℕ) → get_elem? xs k ≢ some (some did)

-- `f` and `l` are the first and the last slot of `xs` that hold `did`.
pub record IsSpan (did : Did) (xs : List (Option Did)) (f l : ℕ) : Type 0 where
  pub at_first : get_elem? xs f ≡ some (some did)
  pub at_last : get_elem? xs l ≡ some (some did)
  pub before : (k : ℕ) → get_elem? xs k ≡ some (some did) → f ≤ k
  pub after : (k : ℕ) → get_elem? xs k ≡ some (some did) → k ≤ l

module _ (did : Did) where
  slot_eq-true : (x : Option Did) → slot_eq x (some did) ≡ true → x ≡ some did
  slot_eq-true none h = cc
  slot_eq-true (some y) h = ground arith

  slot_eq-false : (x : Option Did) → slot_eq x (some did) ≡ false → x ≢ some did
  slot_eq-false none h = λ e. cc
  slot_eq-false (some y) h = λ e. ground arith

  -- A bound for the tail of a list, one slot further on.
  le-suc :
      (x : Option Did) (xs : List (Option Did)) (j : ℕ)
      → x ≢ some did
      → ((k : ℕ) → get_elem? xs k ≡ some (some did) → j ≤ k)
      → (k : ℕ) → get_elem? (x ∷ xs) k ≡ some (some did)
      → suc j ≤ k
  le-suc x xs j h least zero e = absurd (h (some-inj e))
  le-suc x xs j h least (suc k) e = omega (arith, least k e)

  suc-le :
      (x : Option Did) (xs : List (Option Did)) (j : ℕ)
      → ((k : ℕ) → get_elem? xs k ≡ some (some did) → k ≤ j)
      → (k : ℕ) → get_elem? (x ∷ xs) k ≡ some (some did)
      → k ≤ suc j
  suc-le x xs j most zero e = omega arith
  suc-le x xs j most (suc k) e = omega (arith, most k e)

  Absent-cons :
      (x : Option Did) (xs : List (Option Did)) → x ≢ some did → Absent did xs → Absent did (x ∷ xs)
  Absent-cons x xs h a zero e = h (some-inj e)
  Absent-cons x xs h a (suc k) e = a k e

  head?-indexes :
      (i : ℕ) (xs : List (Option Did)) (f : ℕ)
      → head? (indexes i did xs) ≡ some f
      → (j : ℕ) × (f ≡ i + j)
        × (get_elem? xs j ≡ some (some did))
        × ((k : ℕ) → get_elem? xs k ≡ some (some did) → j ≤ k)
  unfolding indexes
  head?-indexes i [] f e = cc
  head?-indexes i (x ∷ xs) f e = elim (Bool-cases (slot_eq x (some did))) [
    | inl h ↦ (0, ground (arith, e, h), ground (arith, slot_eq-true x h), λ k g. omega arith)
    | inr h ↦
        let (j, q, g, least) = head?-indexes (i + 1) xs f (ground (arith, e, h)) in
        (suc j, omega arith, g, le-suc x xs j (slot_eq-false x h) least)
  ]

  last?-none : (i : ℕ) (xs : List (Option Did)) → last? (indexes i did xs) ≡ none → Absent did xs
  unfolding indexes
  last?-none i [] e = λ k g. cc
  last?-none i (x ∷ xs) e = elim (Bool-cases (slot_eq x (some did))) [
    | inl h ↦ λ k g. last?-ne-none i (indexes (i + 1) did xs) (rw h at e)
    | inr h ↦ Absent-cons x xs (slot_eq-false x h) (last?-none (i + 1) xs (rw h at e))
  ]

  last?-indexes :
      (i : ℕ) (xs : List (Option Did)) (l : ℕ)
      → last? (indexes i did xs) ≡ some l
      → (j : ℕ) × (l ≡ i + j)
        × (get_elem? xs j ≡ some (some did))
        × ((k : ℕ) → get_elem? xs k ≡ some (some did) → k ≤ j)
  unfolding indexes
  last?-indexes i [] l e = cc
  last?-indexes i (x ∷ xs) l e = elim (Option-cases (last? (indexes (i + 1) did xs))) [
    | inr (m, q) ↦
        let (j, p, g, most) = last?-indexes (i + 1) xs m q in
        (
          suc j,
          ground (arith, e, q, p, last?-cons-some i m (indexes (i + 1) did xs) q),
          g,
          suc-le x xs j most,
        )
    | inl q ↦ elim (Bool-cases (slot_eq x (some did))) [
      | inl h ↦ (
        0,
        ground (arith, e, h, last?-cons-none i (indexes (i + 1) did xs) q),
        ground (arith, slot_eq-true x h),
        alone x xs (last?-none (i + 1) xs q),
      )
      | inr h ↦ cc (rw h at e)
    ]
  ]
    where
      alone :
          (y : Option Did) (ys : List (Option Did))
          → Absent did ys
          → (k : ℕ) → get_elem? (y ∷ ys) k ≡ some (some did)
          → k ≤ 0
      alone y ys a zero g = omega arith
      alone y ys a (suc k) g = absurd (a k g)

  -- The removal of a node: it is in no slot and nothing changes, or the span from its first to its
  -- last slot is filled with what follows the span.
  pub remove-cases :
      (t : FingerTable)
      → (Absent did t.finger × (remove t did ≡ t))
        ⊎ ((f : ℕ) × (l : ℕ) × IsSpan did t.finger f l
            × (remove t did ≡ remove_span t (some f) (some l)))
  unfolding remove remove_span
  remove-cases t = elim (Option-cases (last? (indexes 0 did t.finger))) [
    | inl q ↦ inl (last?-none 0 t.finger q, ground (arith, q))
    | inr (l, q) ↦ elim (Option-cases (head? (indexes 0 did t.finger))) [
      | inl p ↦ absurd (cc (last?-of-head? (indexes 0 did t.finger) p))
      | inr (f, p) ↦
          let (j, e, g, least) = head?-indexes 0 t.finger f p in
          let (m, e', g', most) = last?-indexes 0 t.finger l q in
          inr (
            j,
            m,
            record { at_first = g; at_last = g'; before = least; after = most },
            ground (arith, p, q, e, e'),
          )
    ]
  ]
