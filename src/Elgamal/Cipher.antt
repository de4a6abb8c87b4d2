-- ===== src/Elgamal/Cipher.antt =====
-- What is encrypted for a key is read back with its secret key.
use rings_node.Base.{
  ℕ, zero, suc, ◌<◌, ◌≤◌, ◌≡◌, refl, ap, sym, ◌∙◌, subst, true, some, List, [], ◌∷◌, ◌++◌, arith,
  length, length-take, length-drop, take, drop, take-append-drop, map, map-map, All,
}
use rings_node.Error.{
  collected, err≢ok, Result, ok, err, >>=_steps, ok-inj, ecdsa_public_key_bad_format,
  invalid_public_key,
}
use rings_node.Chunk.{chunks_of}
use rings_node.Ecc.{PublicKey}
use rings_node.Session.{ok_or}
use rings_node.Session.Found.{ok_or-some}
use rings_node.Elgamal.{
  Group, concat, to_field, str_to_field, field_bytes, field_to_str, lift_x, str_to_affine,
  affine_to_str, sealed, encrypt, opened, decrypt,
}
use rings_node.Elgamal.Text.{IsCurveField, IsClear, lift_x-bytes, to_field-bytes}

-- The points of libsecp256k1: a multiple that is added goes when its negative is added, multiples of the
-- generator may be taken in either order, and a key that is made of a point is read as that point.
pub record IsGroup {Fe Ge Gj Scalar : Type 0} (gr : Group Fe Ge Gj Scalar) : Type 0 where
  pub add_neg :
      (a : Ge) (r : Scalar) (c : Ge)
      → gr.from_gej (
          gr.add_ge
            (gr.from_ge (gr.from_gej (gr.add_ge (gr.ecmult_const a r) c)))
            (gr.neg (gr.from_gej (gr.ecmult_const a r))))
        ≡ c
  pub mult_comm :
      (r s : Scalar)
      → gr.from_gej (gr.ecmult_const (gr.from_gej (gr.ecmult_gen r)) s)
        ≡ gr.from_gej (gr.ecmult_const (gr.from_gej (gr.ecmult_gen s)) r)
  pub affine-key :
      (a : Ge) (k : PublicKey) → gr.key_of_affine a ≡ some k → gr.affine_of_key k ≡ some a

-- What `f` gives, `g` takes back.
collected-back :
    {A B : Type 0} (f : A → Result B) (g : B → Result A) (xs : List A) (ys : List B)
    → ((x : A) (y : B) → f x ≡ ok y → g y ≡ ok x)
    → collected f xs ≡ ok ys
    → collected g ys ≡ ok xs
collected-back f g [] ys back e = subst (λ l. collected g l ≡ ok []) (ok-inj e) refl
collected-back f g (x ∷ xs) ys back e =
    let (y, e1, q) = >>=_steps (f x) _ e in
    let (l, e2, q1) = >>=_steps (collected f xs) _ e1 in
    subst (λ v. collected g v ≡ ok (x ∷ xs)) (ok-inj e2)
      (rw (back x y q, collected-back f g xs l back q1) refl)

-- And where only a reading `k` of the results counts, which is a reading `j` of the arguments.
collected-map :
    {A B C : Type 0} (f : A → Result B) (k : B → C) (j : A → C) (xs : List A) (ys : List B)
    → All (λ x. (y : B) → f x ≡ ok y → k y ≡ j x) xs
    → collected f xs ≡ ok ys
    → map k ys ≡ map j xs
collected-map f k j [] ys reads e = ap (map k) (sym (ok-inj e))
collected-map f k j (x ∷ xs) ys (now, reads) e =
    let (y, e1, q) = >>=_steps (f x) _ e in
    let (l, e2, q1) = >>=_steps (collected f xs) _ e1 in
    ap (map k) (sym (ok-inj e2))
    ∙ ap (λ c. c ∷ map k l) (now y q)
    ∙ ap (λ v. j x ∷ v) (collected-map f k j xs l reads q1)

All-of : {A : Type 0} {P : A → Type 0} → ((x : A) → P x) → (xs : List A) → All P xs
All-of p [] = tt
All-of p (x ∷ xs) = (p x, All-of p xs)

concat-chunks_of :
    (n mtu : ℕ) (bytes : List ℕ)
    → 0 < mtu
    → length bytes ≤ n
    → concat (map (λ x. x) (chunks_of n mtu bytes)) ≡ bytes
unfolding chunks_of
concat-chunks_of zero mtu [] pos h = refl
concat-chunks_of zero mtu (b ∷ bytes) pos h = absurd (omega arith)
concat-chunks_of (suc n) mtu [] pos h = refl
concat-chunks_of (suc n) mtu (b ∷ bytes) pos h =
    ap (λ xs. take mtu (b ∷ bytes) ++ xs)
      (concat-chunks_of n mtu (drop mtu (b ∷ bytes)) pos
        (omega (arith, length-drop mtu (b ∷ bytes))))
    ∙ take-append-drop mtu (b ∷ bytes)

module _ {Fe Ge Gj Scalar : Type 0} (gr : Group Fe Ge Gj Scalar) (field : IsCurveField gr) where
  chunks-read :
      (n : ℕ) (bytes : List ℕ)
      → All IsClear (chunks_of n 31 bytes)
      → All (λ x. (y : Fe) → to_field gr x ≡ ok y → field_bytes gr y ≡ x) (chunks_of n 31 bytes)
  unfolding chunks_of
  chunks-read zero bytes clear = tt
  chunks-read (suc n) [] clear = tt
  chunks-read (suc n) (b ∷ bytes) (c, clear) = (
    λ y q.
        to_field-bytes gr field (take 31 (b ∷ bytes)) y (omega (arith, length-take 31 (b ∷ bytes)))
          c q,
    chunks-read n (drop 31 (b ∷ bytes)) clear,
  )

  affine_to_str-str_to_affine :
      (s : List ℕ) (points : List Ge)
      → gr.is_utf8 s ≡ true
      → All IsClear (chunks_of (length s) 31 s)
      → str_to_affine gr s ≡ ok points
      → affine_to_str gr points ≡ ok s
  unfolding affine_to_str field_to_str str_to_affine str_to_field
  affine_to_str-str_to_affine s points utf clear e =
      let (fs, e1, q) = >>=_steps (str_to_field gr s) _ e in
      let at_points =
        collected-map (lift_x gr) (λ a. field_bytes gr (gr.x_of a)) (field_bytes gr) fs points
          (All-of (λ x y h. lift_x-bytes gr field x y h) fs) e1 in
      let fields =
        collected-map (to_field gr) (field_bytes gr) (λ x. x) (chunks_of (length s) 31 s) fs
          (chunks-read (length s) s clear) q in
      let bytes = map-map (field_bytes gr) gr.x_of points ∙ at_points ∙ fields in
      rw (ap concat bytes ∙ concat-chunks_of (length s) 31 s (omega arith) (omega arith), utf) refl

module _ {Fe Ge Gj Scalar : Type 0} (gr : Group Fe Ge Gj Scalar) (law : IsGroup gr) where
  opened_lem :
      (sk r : Scalar) (c : Ge) (k1 k2 : PublicKey)
      → gr.affine_of_key k1 ≡ some (gr.from_gej (gr.ecmult_gen r))
      → gr.affine_of_key k2
        ≡ some (gr.from_gej (gr.add_ge (gr.ecmult_const (gr.from_gej (gr.ecmult_gen sk)) r) c))
      → opened gr sk (k1, k2) ≡ ok c
  unfolding opened
  opened_lem sk r c k1 k2 at1 at2 =
      rw (at1, at2, law.mult_comm r sk) (ap ok (law.add_neg (gr.from_gej (gr.ecmult_gen sk)) r c))

  opened-sealed :
      (sk r : Scalar) (c : Ge) (p : PublicKey × PublicKey)
      → sealed gr (gr.from_gej (gr.ecmult_gen sk)) r c ≡ ok p
      → opened gr sk p ≡ ok c
  unfolding sealed
  opened-sealed sk r c p e =
      let (k1, e1, q1) =
        >>=_steps
          (ok_or (gr.key_of_affine (gr.from_gej (gr.ecmult_gen r))) (err invalid_public_key)) _ e in
      let (k2, e2, q2) =
        >>=_steps
          (ok_or
            (gr.key_of_affine
              (gr.from_gej (gr.add_ge (gr.ecmult_const (gr.from_gej (gr.ecmult_gen sk)) r) c)))
            (err invalid_public_key))
          _ e1 in
      let at1 = law.affine-key _ k1 (ok_or-some _ _ k1 (λ b. err≢ok) q1) in
      let at2 = law.affine-key _ k2 (ok_or-some _ _ k2 (λ b. err≢ok) q2) in
      subst (λ v. opened gr sk v ≡ ok c) (ok-inj e2) (opened_lem sk r c k1 k2 at1 at2)

module _ {Fe Ge Gj Scalar : Type 0} (gr : Group Fe Ge Gj Scalar) (field : IsCurveField gr)
    (law : IsGroup gr) where
  -- In the group of secp256k1, a text whose 31-byte chunks do not begin with NUL bytes: where it can be encrypted for
  -- the public key of a secret key, whatever the random scalar, decrypting with that secret key gives it back.
  pub decrypt-encrypt :
      (s : List ℕ) (k : PublicKey) (sk random_sar : Scalar) (m : List (PublicKey × PublicKey))
      → gr.is_utf8 s ≡ true
      → All IsClear (chunks_of (length s) 31 s)
      → gr.affine_of_key k ≡ some (gr.from_gej (gr.ecmult_gen sk))
      → encrypt gr random_sar s k ≡ ok m
      → decrypt gr m sk ≡ ok s
  unfolding encrypt decrypt
  decrypt-encrypt s k sk r m utf clear key e =
      let (h, e1, q) =
        >>=_steps (ok_or (gr.affine_of_key k) (err ecdsa_public_key_bad_format)) _ e in
      let (points, e2, q1) = >>=_steps (str_to_affine gr s) _ e1 in
      let own : gr.from_gej (gr.ecmult_gen sk) ≡ h = ok-inj (rw key at q) in
      let back =
        collected-back (sealed gr (gr.from_gej (gr.ecmult_gen sk)) r) (opened gr sk) points m
          (opened-sealed gr law sk r)
          (subst (λ x. collected (sealed gr x r) points ≡ ok m) (sym own) e2) in
      rw back (affine_to_str-str_to_affine gr field s points utf clear q1)
