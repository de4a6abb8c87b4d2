-- ===== src/Chunk/Repeats.antt =====
-- Chunks of one message that come again: `get` forms them twice, the second time sorted.
use rings_node.Base.{
  ℕ, suc, ◌-◌, ◌≤◌, ◌<◌, ◌≡◌, refl, ap, sym, ◌∙◌, ◌⊎◌, inl, inr, List, [], ◌∷◌, arith, length, All,
  All-impl, IsSorted, sort_by, insert_by, sort_by-IsSorted, sort_by-sorted, All-sort_by, leb, ◌==◌,
  ==_iff, Bool-cases, some-inj, get_elem?, lt-of-get_elem?, subst,
}
use rings_node.Chunk.{Chunk, dedup_from, dedup, formalize}
use rings_node.Chunk.Split.{IsPart, Rising}

-- The chunk stands in the list.
abbrev pub In : Chunk → List Chunk → Type 0
In x [] = ⊥
In x (c ∷ cs) = (x ≡ c) ⊎ In x cs

pub In-All : (P : Chunk → Type 0) (x : Chunk) (cs : List Chunk) → In x cs → All P cs → P x
In-All P x [] i h = elim i [ ]
In-All P x (c ∷ cs) (inl e) h = subst P (sym e) h.0
In-All P x (c ∷ cs) (inr i) h = In-All P x cs i h.1

pub All-In : (P : Chunk → Type 0) (cs : List Chunk) → ((x : Chunk) → In x cs → P x) → All P cs
All-In P [] h = tt
All-In P (c ∷ cs) h = (h c (inl refl), All-In P cs (λ x i. h x (inr i)))

either : {A B C : Type 0} → (A → C) → (B → C) → A ⊎ B → C
either f g (inl a) = f a
either f g (inr b) = g b

In-insert_by :
    (x c : Chunk) (cs : List Chunk) → In x (c ∷ cs) → In x (insert_by (λ y. y.index) c cs)
unfolding insert_by
In-insert_by x c [] i = i
In-insert_by x c (d ∷ cs) i = elim (Bool-cases (leb c.index d.index)) [
  | inl h ↦ rw h i
  | inr h ↦ rw h (
      either (λ e. inr (In-insert_by x c cs (inl e)))
        (either (λ e. inl e) (λ j. inr (In-insert_by x c cs (inr j)))) i)
]

In-sort_by : (x : Chunk) (cs : List Chunk) → In x cs → In x (sort_by (λ y. y.index) cs)
unfolding sort_by
In-sort_by x [] i = i
In-sort_by x (c ∷ cs) (inl e) = In-insert_by x c _ (inl e)
In-sort_by x (c ∷ cs) (inr i) = In-insert_by x c _ (inr (In-sort_by x cs i))

In-of-sort_by : (x : Chunk) (cs : List Chunk) → In x (sort_by (λ y. y.index) cs) → In x cs
In-of-sort_by x cs i =
    In-All (λ y. In y cs) x _ i
      (All-sort_by (λ y. y.index) (λ y. In y cs) cs (All-In (λ y. In y cs) cs (λ y j. j)))

In-of-dedup_from : (i : ℕ) (x : Chunk) (cs : List Chunk) → In x (dedup_from i cs) → In x cs
unfolding dedup_from
In-of-dedup_from i x [] h = h
In-of-dedup_from i x (c ∷ cs) h = elim (Bool-cases (c.index == i)) [
  | inl e ↦ inr (In-of-dedup_from i x cs (rw (e, dedup_from) at h))
  | inr e ↦
      either (λ q. inl q) (λ j. inr (In-of-dedup_from c.index x cs j)) (rw (e, dedup_from) at h)
]

In-of-dedup : (x : Chunk) (cs : List Chunk) → In x (dedup cs) → In x cs
unfolding dedup
In-of-dedup x [] h = h
In-of-dedup x (c ∷ cs) (inl e) = inl e
In-of-dedup x (c ∷ cs) (inr j) = inr (In-of-dedup_from c.index x cs j)

pub In-of-formalize : (x : Chunk) (cs : List Chunk) → In x (formalize cs) → In x cs
unfolding formalize
In-of-formalize x cs h = In-of-dedup x cs (In-of-sort_by x (dedup cs) h)

module _ (split : List Chunk) where
  same_part : (c d : Chunk) → IsPart split c → IsPart split d → c.index ≡ d.index → c ≡ d
  same_part c d p q e = some-inj (sym p ∙ ap (get_elem? split) e ∙ q)

  In-dedup_from :
      (x d : Chunk) (cs : List Chunk)
      → IsPart split d
      → All (IsPart split) cs
      → In x (d ∷ cs)
      → In x (d ∷ dedup_from d.index cs)
  unfolding dedup_from
  In-dedup_from x d [] p ps h = h
  In-dedup_from x d (c ∷ cs) p ps h = elim (Bool-cases (c.index == d.index)) [
    | inl e ↦
        let same = same_part c d ps.0 p ((==_iff _ _).0 e) in
        rw e (
          In-dedup_from x d cs p ps.1
            (either (λ q. inl q) (either (λ q. inl (q ∙ same)) (λ j. inr j)) h))
    | inr e ↦ rw e (either (λ q. inl q) (λ j. inr (In-dedup_from x c cs ps.0 ps.1 j)) h)
  ]

  In-dedup : (x : Chunk) (cs : List Chunk) → All (IsPart split) cs → In x cs → In x (dedup cs)
  unfolding dedup
  In-dedup x [] ps h = h
  In-dedup x (c ∷ cs) ps h = In-dedup_from x c cs ps.0 ps.1 h

  pub In-formalize :
      (x : Chunk) (cs : List Chunk) → All (IsPart split) cs → In x cs → In x (formalize cs)
  unfolding formalize
  In-formalize x cs ps h = In-sort_by x (dedup cs) (In-dedup x cs ps h)

  All-dedup : (cs : List Chunk) → All (IsPart split) cs → All (IsPart split) (dedup cs)
  All-dedup cs ps =
      All-In (IsPart split) (dedup cs) (λ x i. In-All (IsPart split) x cs (In-of-dedup x cs i) ps)

  -- Sorted parts without neighbours of one index rise strictly.
  Rising-dedup_from :
      (d : Chunk) (cs : List Chunk)
      → All (IsPart split) cs
      → All (λ y. d.index ≤ y.index) cs
      → IsSorted (λ y. y.index) cs
      → Rising split (suc d.index) (dedup_from d.index cs)
  unfolding dedup_from
  Rising-dedup_from d [] ps l s = tt
  Rising-dedup_from d (c ∷ cs) ps l s = elim (Bool-cases (c.index == d.index)) [
    | inl e ↦ rw e (Rising-dedup_from d cs ps.1 l.1 s.1)
    | inr e ↦
        let above : suc d.index ≤ c.index = let h = l.0 in ground arith in
        rw e (above, lt-of-get_elem? split c.index ps.0, Rising-dedup_from c cs ps.1 s.0 s.1)
  ]

  Rising-dedup :
      (cs : List Chunk)
      → All (IsPart split) cs
      → IsSorted (λ y. y.index) cs
      → Rising split 0 (dedup cs)
  unfolding dedup
  Rising-dedup [] ps s = tt
  Rising-dedup (c ∷ cs) ps s =
      (omega arith, lt-of-get_elem? split c.index ps.0, Rising-dedup_from c cs ps.1 s.0 s.1)

  Rising-above : (lo : ℕ) (cs : List Chunk) → Rising split lo cs → All (λ y. lo ≤ y.index) cs
  Rising-above lo [] r = tt
  Rising-above lo (c ∷ cs) (l, h, r) =
      (l, All-impl _ _ cs (λ y m. omega (arith, l, m)) (Rising-above (suc c.index) cs r))

  Rising-IsSorted : (lo : ℕ) (cs : List Chunk) → Rising split lo cs → IsSorted (λ y. y.index) cs
  Rising-IsSorted lo [] r = tt
  Rising-IsSorted lo (c ∷ cs) (l, h, r) = (
    All-impl _ _ cs (λ y m. omega (arith, m)) (Rising-above (suc c.index) cs r),
    Rising-IsSorted (suc c.index) cs r,
  )

  -- The second `formalize` of a pool of parts has each of them once, in order.
  pub Rising-formalize :
      (cs : List Chunk) → All (IsPart split) cs → Rising split 0 (formalize (formalize cs))
  unfolding formalize
  Rising-formalize cs ps =
      let key : Chunk → ℕ = λ y. y.index in
      let sorted = sort_by key (dedup cs) in
      let parts : All (IsPart split) sorted =
        All-sort_by key (IsPart split) (dedup cs) (All-dedup cs ps) in
      let once = Rising-dedup sorted parts (sort_by-IsSorted key (dedup cs)) in
      subst (Rising split 0)
        (sym (sort_by-sorted key (dedup sorted) (Rising-IsSorted 0 (dedup sorted) once))) once

  module _ (at : (k : ℕ) → k < length split → (x : Chunk) × (x.index ≡ k) × IsPart split x) where
    -- Rising chunks with every part from `lo` on are as many as these parts.
    pub Rising-long :
        (lo : ℕ) (cs : List Chunk)
        → Rising split lo cs
        → ((x : Chunk) → IsPart split x → lo ≤ x.index → In x cs)
        → length split - lo ≤ length cs
    Rising-long lo [] r h = elim (Bool-cases (leb (length split) lo)) [
      | inl e ↦ ground arith
      | inr e ↦ let (x, i, p) = at lo (ground arith) in absurd (h x p (omega (arith, i)))
    ]
    Rising-long lo (c ∷ cs) (l, lt, r) h =
        let (x, i, p) = at lo (omega (arith, l, lt)) in
        let first : c.index ≤ lo = first_of x i (h x p (omega (arith, i))) in
        let rest =
          Rising-long (suc c.index) cs r (λ y q m. later y m (h y q (omega (arith, m, l)))) in
        omega (arith, rest, first)
      where
        first_of : (x : Chunk) → x.index ≡ lo → In x (c ∷ cs) → c.index ≤ lo
        first_of x i (inl e) = omega (arith, i, ap (λ y. y.index) e)
        first_of x i (inr j) =
            let above =
              In-All (λ y. suc c.index ≤ y.index) x cs j (Rising-above (suc c.index) cs r) in
            absurd (omega (arith, above, i, l))

        later : (y : Chunk) → suc c.index ≤ y.index → In y (c ∷ cs) → In y cs
        later y m (inl e) = absurd (omega (arith, m, ap (λ z. z.index) e))
        later y m (inr j) = j
