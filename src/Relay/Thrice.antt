-- ===== src/Relay/Thrice.antt =====
-- The first three places of a node in a path, for the test on loops.
use rings_node.Base.{
  ℕ, zero, suc, ◌+◌, ◌-◌, ◌<◌, ◌≤◌, ◌≡◌, ◌≢◌, ◌↔◌, ◌⊎◌, refl, ap, ap₂, sym, ◌∙◌, true, some, List,
  [], ◌∷◌, arith, get_elem?, take, drop, ltb, ◌==◌, Bool-cases, inl, inr,
}
use rings_node.Did.{Did}
use rings_node.Relay.{positions, loops_at}
use rings_node.Relay.Positions.{First, positions-First, positions-find, get_elem?-drop}

-- `d` stands at the indexes 0, `suc a` and `suc a + suc b`, and at no other up to there.
abbrev pub Thrice : List Did → Did → ℕ → ℕ → Type 0
Thrice back d a b =
    First d 0 back × First d a (drop 1 back) × First d b (drop (suc a) (drop 1 back))

pub positions-Thrice :
    (back : List Did) (d : Did) (a b : ℕ)
    → Thrice back d a b
    → take 3 (positions 0 d back) ≡ 0 ∷ suc a ∷ (suc a + suc b) ∷ []
positions-Thrice back d a b (f, g, h) =
    let l : 0 + 1 + a ≡ suc a = omega arith in
    let m : 0 + 1 + suc a + b ≡ suc a + suc b = omega arith in
    ap (take 3) (positions-First d 0 0 back f)
    ∙ ap (λ ps. (0 + 0) ∷ take 2 ps) (positions-First d a (0 + 1) (drop 1 back) g)
    ∙ ap (λ ps. (0 + 0) ∷ (0 + 1 + a) ∷ take 1 ps)
        (positions-First d b (0 + 1 + suc a) (drop (suc a) (drop 1 back)) h)
    ∙ ap₂ (λ (x y : ℕ). 0 ∷ x ∷ y ∷ []) l m

one_not_enough : (back : List Did) (i : ℕ) → loops_at back (i ∷ []) ≢ true
unfolding loops_at
one_not_enough back i e = cc

two_not_enough : (back : List Did) (i j : ℕ) → loops_at back (i ∷ j ∷ []) ≢ true
unfolding loops_at
two_not_enough back i j e = cc

-- The test on the first three indexes says yes only if there are three.
pub find-Thrice :
    (back : List Did) (d : Did)
    → get_elem? back 0 ≡ some d
    → loops_at back (take 3 (positions 0 d back)) ≡ true
    → (a : ℕ) × (b : ℕ) × Thrice back d a b
find-Thrice back d e t =
    let f : First d 0 back = (e, λ j l. elim l [ ]) in
    let p0 = positions-First d 0 0 back f in
    elim (positions-find d (0 + 1) (drop 1 back)) [
      | inl n ↦ absurd (one_not_enough back _ (rw (p0, n) at t))
      | inr (a, g) ↦
          let p1 = positions-First d a (0 + 1) (drop 1 back) g in
          elim (positions-find d (0 + 1 + suc a) (drop (suc a) (drop 1 back))) [
            | inl n ↦ absurd (two_not_enough back _ _ (rw (p0, p1, n) at t))
            | inr (b, h) ↦ (a, b, (f, g, h))
          ]
    ]

-- Up to the index `l + l`, `d` stands exactly at 0, `l` and `l + l`.
abbrev pub Only : List Did → Did → ℕ → Type 0
Only back d l = (j : ℕ) → j ≤ l + l → get_elem? back j ≡ some d ↔ ((j ≡ 0) ⊎ (j ≡ l) ⊎ (j ≡ l + l))

after_one : (back : List Did) (j : ℕ) → get_elem? (drop 1 back) j ≡ get_elem? back (suc j)
after_one back j =
    let e : j + 1 ≡ suc j = omega arith in get_elem?-drop 1 j back ∙ ap (get_elem? back) e

pub after_two :
    (back : List Did) (a j : ℕ)
    → get_elem? (drop (suc a) (drop 1 back)) j ≡ get_elem? back (suc a + suc j)
after_two back a j =
    let e : suc (j + suc a) ≡ suc a + suc j = omega arith in
    get_elem?-drop (suc a) j (drop 1 back) ∙ after_one back (j + suc a) ∙ ap (get_elem? back) e

-- Where an index up to `suc a + suc a` can be.
place :
    (a j : ℕ)
    → j ≤ suc a + suc a
    → ((j ≡ 0) ⊎ (j ≡ suc a) ⊎ (j ≡ suc a + suc a))
      ⊎ (((k : ℕ) × (k < a) × (j ≡ suc k)) ⊎ ((k : ℕ) × (k < a) × (j ≡ suc a + suc k)))
place a zero l = inl (inl refl)
place a (suc k) l = elim (Bool-cases (ltb k a)) [
  | inl e ↦ inr (inl (k, ground arith, refl))
  | inr e ↦ elim (Bool-cases (k == a)) [
    | inl q ↦ inl (inr (inl (ground arith)))
    | inr q ↦ elim (Bool-cases (k == a + suc a)) [
      | inl r ↦ inl (inr (inr (ground arith)))
      | inr r ↦ inr (inr (k - suc a, ground arith, ground arith))
    ]
  ]
]

pub Thrice-Only : (back : List Did) (d : Did) (a : ℕ) → Thrice back d a a → Only back d (suc a)
Thrice-Only back d a (f, g, h) j le = (
  λ e. elim (place a j le) [
    | inl p ↦ p
    | inr (inl (k, lt, q)) ↦ absurd (g.1 k lt (after_one back k ∙ ap (get_elem? back) (sym q) ∙ e))
    | inr (inr (k, lt, q)) ↦
        absurd (h.1 k lt (after_two back a k ∙ ap (get_elem? back) (sym q) ∙ e))
  ],
  stands,
)
  where
    stands : (j ≡ 0) ⊎ (j ≡ suc a) ⊎ (j ≡ suc a + suc a) → get_elem? back j ≡ some d
    stands (inl q) = ap (get_elem? back) q ∙ f.0
    stands (inr (inl q)) = ap (get_elem? back) q ∙ sym (after_one back a) ∙ g.0
    stands (inr (inr q)) = ap (get_elem? back) q ∙ sym (after_two back a a) ∙ h.0

pub Only-Thrice : (back : List Did) (d : Did) (a : ℕ) → Only back d (suc a) → Thrice back d a a
Only-Thrice back d a o = (
  ((o 0 (omega arith)).1 (inl refl), λ j l. elim l [ ]),
  (
    after_one back a ∙ (o (suc a) (omega arith)).1 (inr (inl refl)),
    λ j l e.
        other (suc j) (omega arith) (omega arith) (omega arith)
          ((o (suc j) (omega arith)).0 (sym (after_one back j) ∙ e)),
  ),
  (
    after_two back a a ∙ (o (suc a + suc a) (omega arith)).1 (inr (inr refl)),
    λ j l e.
        other (suc a + suc j) (omega arith) (omega arith) (omega arith)
          ((o (suc a + suc j) (omega arith)).0 (sym (after_two back a j) ∙ e)),
  ),
)
  where
    other :
        (j : ℕ)
        → j ≢ 0
        → j ≢ suc a
        → j ≢ suc a + suc a
        → (j ≡ 0) ⊎ (j ≡ suc a) ⊎ (j ≡ suc a + suc a)
        → ⊥
    other j x y z (inl q) = x q
    other j x y z (inr (inl q)) = y q
    other j x y z (inr (inr q)) = z q
