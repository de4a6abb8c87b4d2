-- ===== src/Ecc/Bytes.antt =====
-- The last byte of a signature.
use rings_node.Base.{
  ℕ, ◌≡◌, refl, ap, subst, some, List, [], ◌∷◌, ◌++◌, length, take, set, get_elem?,
}
use rings_node.Ecc.{byte_at, or_zero}

module _ {A : Type 0} where
  pub take-length : (xs ys : List A) (n : ℕ) → length xs ≡ n → take n (xs ++ ys) ≡ xs
  take-length xs ys n e = subst (λ m. take m (xs ++ ys) ≡ xs) e (all xs)
    where
      all : (l : List A) → take (length l) (l ++ ys) ≡ l
      all [] = refl
      all (x ∷ l) = ap (λ m. x ∷ m) (all l)

  pub get_elem?-length :
      (xs : List A) (b : A) (n : ℕ) → length xs ≡ n → get_elem? (xs ++ b ∷ []) n ≡ some b
  get_elem?-length xs b n e = subst (λ m. get_elem? (xs ++ b ∷ []) m ≡ some b) e (last xs)
    where
      last : (l : List A) → get_elem? (l ++ b ∷ []) (length l) ≡ some b
      last [] = refl
      last (x ∷ l) = last l

  pub set-length :
      (xs : List A) (b v : A) (n : ℕ) → length xs ≡ n → set (xs ++ b ∷ []) n v ≡ xs ++ v ∷ []
  set-length xs b v n e = subst (λ m. set (xs ++ b ∷ []) m v ≡ xs ++ v ∷ []) e (last xs)
    where
      last : (l : List A) → set (l ++ b ∷ []) (length l) v ≡ l ++ v ∷ []
      last [] = refl
      last (x ∷ l) = ap (λ m. x ∷ m) (last l)

pub byte_at-length : (xs : List ℕ) (b n : ℕ) → length xs ≡ n → byte_at (xs ++ b ∷ []) n ≡ b
byte_at-length xs b n e = ap or_zero (get_elem?-length xs b n e)
