-- ===== src/Relay/Positions.antt =====
-- The indexes that `positions` finds, for the test on loops.
use mathlib.Core.List.{reverse}
use rings_node.Base.{
  ℕ, zero, suc, ◌+◌, ◌<◌, ◌≡◌, ◌≢◌, ◌⊎◌, refl, ap, ap₂, sym, ◌∙◌, true, false, some, List, [], ◌∷◌,
  arith, length, get_elem?, drop, last?, ◌==◌, ==_iff, Bool-cases, some-inj, false≢true, inl, inr,
}
use rings_node.Did.{Did}
use rings_node.Relay.{positions}
use rings_node.Relay.Reverse.{get_elem?-reverse}

-- `d` stands at index `n`, and at none before.
abbrev pub First : Did → ℕ → List Did → Type 0
First d n xs = (get_elem? xs n ≡ some d) × ((j : ℕ) → j < n → get_elem? xs j ≢ some d)

pub positions-First :
    (d : Did) (n i : ℕ) (xs : List Did)
    → First d n xs
    → positions i d xs ≡ (i + n) ∷ positions (i + suc n) d (drop (suc n) xs)
unfolding positions
positions-First d n i [] f = cc (f.0)
positions-First d zero i (x ∷ xs) f =
    let found : (x == d) ≡ true = (==_iff x d).1 (some-inj f.0) in
    let here : i ≡ i + 0 = omega arith in rw found (ap (λ (k : ℕ). k ∷ positions (i + 1) d xs) here)
positions-First d (suc n) i (x ∷ xs) f =
    let later : (x == d) ≡ false =
      let ne = λ (e : x ≡ d). f.1 0 (omega arith) (ap some e) in differs x d ne in
    let rest : First d n xs = (f.0, λ j l. f.1 (suc j) (omega arith)) in
    let a : i + 1 + n ≡ i + suc n = omega arith in
    let b : i + 1 + suc n ≡ i + suc (suc n) = omega arith in
    rw later (
      positions-First d n (i + 1) xs rest
      ∙ ap₂ (λ (k m : ℕ). k ∷ positions m d (drop (suc n) xs)) a b)
  where
    differs : (x d : Did) → x ≢ d → (x == d) ≡ false
    differs x d ne = ground (arith, ne)

pub positions-find :
    (d : Did) (i : ℕ) (xs : List Did) → (positions i d xs ≡ []) ⊎ ((n : ℕ) × First d n xs)
unfolding positions
positions-find d i [] = inl refl
positions-find d i (x ∷ xs) = elim (Bool-cases (x == d)) [
  | inl e ↦ inr (0, (ap some ((==_iff x d).0 e), λ j l. elim l [ ]))
  | inr e ↦ elim (positions-find d (i + 1) xs) [
    | inl none_left ↦ inl (rw e none_left)
    | inr (n, (g, before)) ↦ inr (suc n, (g, after (some_ne e) before))
  ]
]
  where
    some_ne : (x == d) ≡ false → get_elem? (x ∷ xs) 0 ≢ some d
    some_ne e q = absurd (false≢true (sym e ∙ (==_iff x d).1 (some-inj q)))

    after :
        {n : ℕ}
        → get_elem? (x ∷ xs) 0 ≢ some d
        → ((j : ℕ) → j < n → get_elem? xs j ≢ some d)
        → (j : ℕ) → j < suc n
        → get_elem? (x ∷ xs) j ≢ some d
    after h k zero l = h
    after h k (suc j) l = k j (omega arith)

pub get_elem?-drop : (n j : ℕ) (xs : List Did) → get_elem? (drop n xs) j ≡ get_elem? xs (j + n)
get_elem?-drop zero j xs = let e : j ≡ j + 0 = omega arith in ap (get_elem? xs) e
get_elem?-drop (suc n) j [] = refl
get_elem?-drop (suc n) j (x ∷ xs) =
    let e : suc (j + n) ≡ j + suc n = omega arith in
    get_elem?-drop n j xs ∙ ap (get_elem? (x ∷ xs)) e

last?-get_elem? : (x : Did) (xs : List Did) → last? (x ∷ xs) ≡ get_elem? (x ∷ xs) (length xs)
last?-get_elem? x [] = refl
last?-get_elem? x (y ∷ xs) = last?-get_elem? y xs

-- The last node of a path, read from its end.
pub reverse-last? : (path : List Did) → get_elem? (reverse path) 0 ≡ last? path
reverse-last? [] = refl
reverse-last? (x ∷ xs) =
    get_elem?-reverse (x ∷ xs) 0 (length xs) (omega arith) ∙ sym (last?-get_elem? x xs)
