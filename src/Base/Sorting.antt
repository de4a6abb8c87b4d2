-- ===== src/Base/Sorting.antt =====
-- A stable sort by a numeric key (what `slice::sort_by` and `sort_by_key` promise).
use Prim.Native.Nat.{ℕ, zero, suc, ◌≤◌}
use mathlib.Core.Path.{◌≡◌, refl, ap, sym, ◌∙◌}
use mathlib.Core.Logic.{inl, inr, ◌≢◌}
use mathlib.Core.Bool.{Bool, true}
use mathlib.Core.List.{List, [], ◌∷◌, Perm}
use mathlib.Core.List.Perm
use native.Mathlib.Omega.{arith}
use rings_node.Base.Tests.{leb, if◌then◌else◌, Bool-cases}
use rings_node.Base.Lists.{
  length, take, drop, retain, All, All-take, All-drop, All-retain, Distinct,
}

module _ {ℓ} {A : Type ℓ} (key : A → ℕ) where
  -- Before the first element with a key as large, so that equal keys keep their order.
  unfoldable pub insert_by : A → List A → List A
  insert_by a [] = a ∷ []
  insert_by a (x ∷ xs) =
      let rest = insert_by a xs in if leb (key a) (key x) then a ∷ x ∷ xs else x ∷ rest

  unfoldable pub sort_by : List A → List A
  unfolding insert_by
  sort_by [] = []
  sort_by (x ∷ xs) = insert_by x (sort_by xs)

  abbrev pub IsSorted : List A → Type ℓ
  IsSorted [] = Unit
  IsSorted (x ∷ xs) = All (λ y. key x ≤ key y) xs × IsSorted xs

  pub insert_by-perm : (a : A) (xs : List A) → Perm (insert_by a xs) (a ∷ xs)
  unfolding insert_by
  insert_by-perm a [] = Perm.refl _
  insert_by-perm a (x ∷ xs) = elim (Bool-cases (leb (key a) (key x))) [
    | inl h ↦ rw h (Perm.refl _)
    | inr h ↦ rw h (Perm.trans (Perm.cons x (insert_by-perm a xs)) (Perm.swap a x xs))
  ]

  pub sort_by-perm : (xs : List A) → Perm (sort_by xs) xs
  unfolding sort_by
  sort_by-perm [] = Perm.refl _
  sort_by-perm (x ∷ xs) = Perm.trans (insert_by-perm x (sort_by xs)) (Perm.cons x (sort_by-perm xs))

  pub All-insert_by {κ} :
      (P : A → Type κ) (a : A) (xs : List A) → P a → All P xs → All P (insert_by a xs)
  unfolding insert_by
  All-insert_by P a [] p h = (p, tt)
  All-insert_by P a (x ∷ xs) p h = elim (Bool-cases (leb (key a) (key x))) [
    | inl e ↦ rw e (p, h)
    | inr e ↦ rw e (h.0, All-insert_by P a xs p h.1)
  ]

  pub All-sort_by {κ} : (P : A → Type κ) (xs : List A) → All P xs → All P (sort_by xs)
  unfolding sort_by
  All-sort_by P [] h = tt
  All-sort_by P (x ∷ xs) h = All-insert_by P x (sort_by xs) h.0 (All-sort_by P xs h.1)

  All-le_trans : (m n : ℕ) (xs : List A) → m ≤ n → All (λ y. n ≤ key y) xs → All (λ y. m ≤ key y) xs
  All-le_trans m n [] h a = tt
  All-le_trans m n (x ∷ xs) h a = (omega (arith, a.0), All-le_trans m n xs h a.1)

  pub insert_by-IsSorted : (a : A) (xs : List A) → IsSorted xs → IsSorted (insert_by a xs)
  unfolding insert_by
  insert_by-IsSorted a [] h = (tt, tt)
  insert_by-IsSorted a (x ∷ xs) h = elim (Bool-cases (leb (key a) (key x))) [
    | inl e ↦ rw e ((le e, All-le_trans (key a) (key x) xs (le e) h.0), h)
    | inr e ↦
        rw e
          (All-insert_by (λ y. key x ≤ key y) a xs (ground arith) h.0, insert_by-IsSorted a xs h.1)
  ]
    where
      le : leb (key a) (key x) ≡ true → key a ≤ key x
      le e = ground arith

  pub sort_by-IsSorted : (xs : List A) → IsSorted (sort_by xs)
  unfolding sort_by
  sort_by-IsSorted [] = tt
  sort_by-IsSorted (x ∷ xs) = insert_by-IsSorted x (sort_by xs) (sort_by-IsSorted xs)

  pub length-insert_by : (a : A) (xs : List A) → length (insert_by a xs) ≡ suc (length xs)
  unfolding insert_by
  length-insert_by a [] = refl
  length-insert_by a (x ∷ xs) = ground (arith, length-insert_by a xs)

  pub length-sort_by : (xs : List A) → length (sort_by xs) ≡ length xs
  unfolding sort_by
  length-sort_by [] = refl
  length-sort_by (x ∷ xs) = length-insert_by x (sort_by xs) ∙ ap suc (length-sort_by xs)

  -- A sorted list stays as it is.
  pub sort_by-sorted : (xs : List A) → IsSorted xs → sort_by xs ≡ xs
  unfolding sort_by insert_by
  sort_by-sorted [] h = refl
  sort_by-sorted (x ∷ []) h = refl
  sort_by-sorted (x ∷ y ∷ xs) h = rw (sort_by-sorted (y ∷ xs) h.1) (ground (arith, h.0.0))

  pub IsSorted-take : (n : ℕ) (xs : List A) → IsSorted xs → IsSorted (take n xs)
  IsSorted-take zero xs h = tt
  IsSorted-take (suc n) [] h = tt
  IsSorted-take (suc n) (x ∷ xs) h = (All-take _ n xs h.0, IsSorted-take n xs h.1)

  pub IsSorted-retain : (p : A → Bool) (xs : List A) → IsSorted xs → IsSorted (retain p xs)
  IsSorted-retain p [] h = tt
  IsSorted-retain p (x ∷ xs) h = elim (Bool-cases (p x)) [
    | inl e ↦ rw (e, retain) (All-retain (λ y. key x ≤ key y) p xs h.0, IsSorted-retain p xs h.1)
    | inr e ↦ rw (e, retain) (IsSorted-retain p xs h.1)
  ]

  pub Distinct-insert_by :
      (a : A) (xs : List A) → All (λ y. a ≢ y) xs → Distinct xs → Distinct (insert_by a xs)
  unfolding insert_by
  Distinct-insert_by a [] n h = (tt, tt)
  Distinct-insert_by a (x ∷ xs) n h = elim (Bool-cases (leb (key a) (key x))) [
    | inl e ↦ rw e (n, h)
    | inr e ↦
        rw e
          (All-insert_by (λ y. x ≢ y) a xs (λ q. n.0 (sym q)) h.0, Distinct-insert_by a xs n.1 h.1)
  ]

  pub Distinct-sort_by : (xs : List A) → Distinct xs → Distinct (sort_by xs)
  unfolding sort_by
  Distinct-sort_by [] h = tt
  Distinct-sort_by (x ∷ xs) h =
      Distinct-insert_by x (sort_by xs) (All-sort_by (λ y. x ≢ y) xs h.0) (Distinct-sort_by xs h.1)

  -- A prefix of a sorted list holds the smallest keys.
  pub take-le-drop :
      (n : ℕ) (xs : List A)
      → IsSorted xs
      → All (λ r. All (λ k. key k ≤ key r) (take n xs)) (drop n xs)
  take-le-drop zero xs h = all_empty xs
    where
      all_empty : (ys : List A) → All (λ r. All (λ k. key k ≤ key r) []) ys
      all_empty [] = tt
      all_empty (y ∷ ys) = (tt, all_empty ys)
  take-le-drop (suc n) [] h = tt
  take-le-drop (suc n) (x ∷ xs) h = both (drop n xs) (All-drop _ n xs h.0) (take-le-drop n xs h.1)
    where
      both :
          (ys : List A)
          → All (λ y. key x ≤ key y) ys
          → All (λ r. All (λ k. key k ≤ key r) (take n xs)) ys
          → All (λ r. All (λ k. key k ≤ key r) (x ∷ take n xs)) ys
      both [] a b = tt
      both (y ∷ ys) a b = ((a.0, b.0), both ys a.1 b.1)
