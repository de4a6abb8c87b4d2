-- ===== src/Relay/Reverse.antt =====
-- Reversed lists by index.
use mathlib.Core.List.{reverse, reverse-cons, reverse-append}
use rings_node.Base.{
  ℕ, zero, suc, ◌+◌, ◌<◌, ◌≡◌, refl, ap, ap₂, ◌∙◌, List, [], ◌∷◌, ◌++◌, some, arith, length,
  get_elem?, take, drop, length-append, some-inj,
}

module _ {ℓ} {A : Type ℓ} where
  pub length-reverse : (xs : List A) → length (reverse xs) ≡ length xs
  length-reverse [] = refl
  length-reverse (x ∷ xs) =
      ap length (reverse-cons x xs)
      ∙ omega (arith, length-append (reverse xs) (x ∷ []), length-reverse xs)

  get_elem?-append_left :
      (xs ys : List A) (i : ℕ) → i < length xs → get_elem? (xs ++ ys) i ≡ get_elem? xs i
  get_elem?-append_left [] ys i h = absurd (omega arith)
  get_elem?-append_left (x ∷ xs) ys zero h = refl
  get_elem?-append_left (x ∷ xs) ys (suc i) h = get_elem?-append_left xs ys i (omega arith)

  get_elem?-append_last :
      (xs : List A) (y : A) (i : ℕ) → i ≡ length xs → get_elem? (xs ++ y ∷ []) i ≡ some y
  get_elem?-append_last [] y zero h = refl
  get_elem?-append_last [] y (suc i) h = absurd (omega arith)
  get_elem?-append_last (x ∷ xs) y zero h = absurd (omega arith)
  get_elem?-append_last (x ∷ xs) y (suc i) h = get_elem?-append_last xs y i (omega arith)

  pub get_elem?-reverse :
      (xs : List A) (i j : ℕ) → i + j + 1 ≡ length xs → get_elem? (reverse xs) i ≡ get_elem? xs j
  get_elem?-reverse [] i j h = absurd (omega arith)
  get_elem?-reverse (x ∷ xs) i zero h =
      ap (λ ys. get_elem? ys i) (reverse-cons x xs)
      ∙ get_elem?-append_last (reverse xs) x i (omega (arith, length-reverse xs))
  get_elem?-reverse (x ∷ xs) i (suc j) h =
      ap (λ ys. get_elem? ys i) (reverse-cons x xs)
      ∙ get_elem?-append_left (reverse xs) (x ∷ []) i (omega (arith, length-reverse xs))
      ∙ get_elem?-reverse xs i j (omega arith)

  pub drop-two :
      (xs : List A) (i : ℕ) (x y : A)
      → get_elem? xs i ≡ some x
      → get_elem? xs (suc i) ≡ some y
      → (rest : List A) × (drop i xs ≡ x ∷ y ∷ rest)
  drop-two [] i x y h k = cc
  drop-two (a ∷ []) zero x y h k = cc
  drop-two (a ∷ b ∷ xs) zero x y h k = (xs, ap₂ (λ u v. u ∷ v ∷ xs) (some-inj h) (some-inj k))
  drop-two (a ∷ xs) (suc i) x y h k = drop-two xs i x y h k

  pub take-suc :
      (xs : List A) (i : ℕ) (x : A)
      → get_elem? xs i ≡ some x
      → take (suc i) xs ≡ take i xs ++ x ∷ []
  take-suc [] i x h = cc
  take-suc (a ∷ xs) zero x h = ap (λ y. y ∷ []) (some-inj h)
  take-suc (a ∷ xs) (suc i) x h = ap (λ ys. a ∷ ys) (take-suc xs i x h)

  pub reverse-take-suc :
      (xs : List A) (i : ℕ) (x : A)
      → get_elem? xs i ≡ some x
      → reverse (take (suc i) xs) ≡ x ∷ reverse (take i xs)
  reverse-take-suc xs i x h = ap reverse (take-suc xs i x h) ∙ reverse-append (take i xs) (x ∷ [])
