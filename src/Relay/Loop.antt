-- ===== src/Relay/Loop.antt =====
-- `has_infinite_loop` and the cycles of a path.
use mathlib.Core.List.{reverse}
use rings_node.Base.{
  ℕ, zero, suc, ◌+◌, ◌-◌, ◌<◌, ◌≤◌, ◌≡◌, ◌↔◌, refl, ap, sym, ◌∙◌, true, some, List, [], ◌∷◌, arith,
  min, length, get_elem?, get_elem?-lt, lt-of-get_elem?, take, drop, last?, ◌==◌, ==_iff,
  Bool-cases, Option-cases, some-inj, false≢true, inl, inr, subst,
}
use rings_node.Did.{Did}
use rings_node.Relay.{positions, matches, loops_at, has_infinite_loop}
use rings_node.Relay.Positions.{get_elem?-drop, reverse-last?}
use rings_node.Relay.Thrice.{
  Only, Thrice, positions-Thrice, find-Thrice, Thrice-Only, Only-Thrice, after_two,
}

matches-same :
    (j i bound : ℕ) (p1 p2 p3 : List Did) (a b c : Did)
    → matches i bound p1 p2 p3 ≡ true
    → i + j ≤ bound
    → get_elem? p1 j ≡ some a
    → get_elem? p2 j ≡ some b
    → get_elem? p3 j ≡ some c
    → (a ≡ b) × (b ≡ c)
unfolding matches
matches-same j i bound [] p2 p3 a b c m l x y z = cc
matches-same j i bound (u ∷ p1) [] p3 a b c m l x y z = cc
matches-same j i bound (u ∷ p1) (v ∷ p2) [] a b c m l x y z = cc
matches-same zero i bound (u ∷ p1) (v ∷ p2) (w ∷ p3) a b c m l x y z =
    let here : (u ≡ v) × (v ≡ w) = ground arith in
    (sym (some-inj x) ∙ here.0 ∙ some-inj y, sym (some-inj y) ∙ here.1 ∙ some-inj z)
matches-same (suc j) i bound (u ∷ p1) (v ∷ p2) (w ∷ p3) a b c m l x y z =
    let rest : matches (i + 1) bound p1 p2 p3 ≡ true = ground arith in
    matches-same j (i + 1) bound p1 p2 p3 a b c rest (omega (arith, l)) x y z

-- The other way: where the lists agree up to the bound, the loop goes through.
matches-of :
    (i bound : ℕ) (p1 p2 p3 : List Did)
    → i ≤ bound
    → ((j : ℕ)
        → i + j ≤ bound
        → (get_elem? p1 j ≡ get_elem? p2 j) × (get_elem? p2 j ≡ get_elem? p3 j))
    → matches i bound p1 p2 p3 ≡ true
unfolding matches
matches-of i bound [] p2 p3 l h = refl
matches-of i bound (u ∷ p1) [] p3 l h = refl
matches-of i bound (u ∷ p1) (v ∷ p2) [] l h = refl
matches-of i bound (u ∷ p1) (v ∷ p2) (w ∷ p3) l h =
    let first = h 0 (omega arith) in
    let uv : (u == v) ≡ true = (==_iff u v).1 (some-inj (first.0)) in
    let vw : (v == w) ≡ true = (==_iff v w).1 (some-inj (first.1)) in
    elim (Bool-cases (i == bound)) [
      | inl e ↦ rw (uv, vw, e) refl
      | inr e ↦
          rw (uv, vw, e)
            (matches-of (i + 1) bound p1 p2 p3 (ground arith) (λ j k. h (suc j) (omega (arith, k))))
    ]

-- From the indexes 0, `l` and `m` on, the list is the same for so many nodes.
abbrev Agree : List Did → ℕ → ℕ → ℕ → Type 0
Agree back l m n =
    (j : ℕ)
    → j < n
    → (get_elem? back j ≡ get_elem? back (j + l))
      × (get_elem? back (j + l) ≡ get_elem? back (j + m))

loops_at_iff :
    (back : List Did) (l m : ℕ) (rest : List ℕ)
    → 0 < l
    → l < m
    → m < length back
    → loops_at back (0 ∷ l ∷ m ∷ rest) ≡ true
      ↔ ((m ≡ l + l) × Agree back l m (min l (length back - m)))
unfolding loops_at
loops_at_iff back l m rest p q top = (
  λ h.
      let bound = min (min (l - 0) (m - l)) (length back - m) - 1 in
      let even : m ≡ l + l = ground arith in
      let all : matches 0 bound back (drop l back) (drop m back) ≡ true = ground arith in
      (
        even,
        λ j k.
            let (a, ea) = get_elem?-lt back j (omega arith) in
            let (b, eb) = get_elem?-lt back (j + l) (omega arith) in
            let (c, ec) = get_elem?-lt back (j + m) (omega arith) in
            let (ab, bc) =
              matches-same j 0 bound back (drop l back) (drop m back) a b c all
                (omega (arith, k, even, p, top)) ea (get_elem?-drop l j back ∙ eb)
                (get_elem?-drop m j back ∙ ec) in
            (ea ∙ ap some ab ∙ sym eb, eb ∙ ap some bc ∙ sym ec),
      ),
  λ (even, agree).
      let bound = min (min (l - 0) (m - l)) (length back - m) - 1 in
      let all : matches 0 bound back (drop l back) (drop m back) ≡ true =
        matches-of 0 bound back (drop l back) (drop m back) (omega arith) (λ j k.
          let (x, y) = agree j (omega (arith, k, even, p, top)) in
          (
            x ∙ sym (get_elem?-drop l j back),
            get_elem?-drop l j back ∙ y ∙ sym (get_elem?-drop m j back),
          )) in
      let step : (l - 0 == m - l) ≡ true = (==_iff _ _).1 (omega (arith, even)) in
      rw (all, step) refl,
)

-- `back` has the node `d` at the indexes 0, `l` and `l + l`, and nowhere else up to there; and from these
-- three indexes on it is the same for `l` nodes, or as many as it has from `l + l` on, if that is less.
pub record IsLoop (back : List Did) (d : Did) (l : ℕ) : Type 0 where
  pub period : 0 < l
  pub only : Only back d l
  pub agrees :
      (j : ℕ)
      → j < min l (length back - (l + l))
      → (get_elem? back j ≡ get_elem? back (j + l))
        × (get_elem? back (j + l) ≡ get_elem? back (j + (l + l)))

loops_at-IsLoop :
    (back : List Did) (d : Did)
    → get_elem? back 0 ≡ some d
    → loops_at back (take 3 (positions 0 d back)) ≡ true
    → (l : ℕ) × IsLoop back d l
loops_at-IsLoop back d e t =
    let (a, b, h) = find-Thrice back d e t in
    let top = lt-of-get_elem? back (suc a + suc b) (sym (after_two back a b) ∙ h.2.0) in
    let (even, agree) =
      (loops_at_iff back (suc a) (suc a + suc b) [] (omega arith) (omega arith) top).0
        (rw (positions-Thrice back d a b h) at t) in
    let same : b ≡ a = omega (arith, even) in
    (
      suc a,
      record {
        period = omega arith;
        only = Thrice-Only back d a (subst (Thrice back d a) same h);
        agrees = subst (λ m. Agree back (suc a) m (min (suc a) (length back - m))) even agree;
      },
    )

loops_at-of :
    (back : List Did) (d : Did) (l : ℕ)
    → IsLoop back d l
    → loops_at back (take 3 (positions 0 d back)) ≡ true
loops_at-of back d zero c = absurd (omega (arith, c.period))
loops_at-of back d (suc a) c =
    let h = Only-Thrice back d a c.only in
    let top = lt-of-get_elem? back (suc a + suc a) (sym (after_two back a a) ∙ h.2.0) in
    rw (positions-Thrice back d a a h) (
      (loops_at_iff back (suc a) (suc a + suc a) [] (omega arith) (omega arith) top).1
        (refl, c.agrees))

-- The test for an infinite loop says yes exactly if the path, read from its end, has its last node again
-- after `l` and after twice `l` nodes, and not in between, and the stretches that begin at these three
-- places agree: for `l` nodes, or as far as the path reaches, if it ends within the third stretch. Then
-- the first two are only compared so far.
pub has_infinite_loop-IsLoop :
    (path : List Did)
    → has_infinite_loop path ≡ true ↔ ((d : Did) × (l : ℕ) × IsLoop (reverse path) d l)
unfolding has_infinite_loop
has_infinite_loop-IsLoop path = (
  λ h. elim (Option-cases (last? path)) [
    | inl e ↦ absurd (false≢true (rw (e, has_infinite_loop) at h))
    | inr (d, e) ↦
        let (l, c) =
          loops_at-IsLoop (reverse path) d (reverse-last? path ∙ e)
            (rw (e, has_infinite_loop) at h) in
        (d, l, c)
  ],
  λ (d, l, c).
      let first = (c.only 0 (omega arith)).1 (inl refl) in
      rw (has_infinite_loop, sym (reverse-last? path) ∙ first) (loops_at-of (reverse path) d l c),
)
