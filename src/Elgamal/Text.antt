-- ===== src/Elgamal/Text.antt =====
-- What a text becomes as points, and what is read from them.
use rings_node.Base.{
  ℕ, zero, suc, ◌-◌, ◌≤◌, ◌≡◌, ◌≢◌, refl, ap, sym, ◌∙◌, Bool, true, some, Option-cases, inl, inr,
  List, [], ◌∷◌, ◌++◌, arith, length, set, drop, replicate, ltb, head?,
}
use rings_node.Error.{panic≢ok, ok, ok-inj}
use rings_node.Elgamal.{Group, skip_zeros, to_field, field_bytes, lift_biased, lift_x}

-- The field and the points of libsecp256k1: the bytes of an element are those it was read from, 32 of them, and
-- a point that `set_xo_var` gives has the abscissa that it was given.
pub record IsCurveField {Fe Ge Gj Scalar : Type 0} (gr : Group Fe Ge Gj Scalar) : Type 0 where
  pub b32-set_b32 : (v : List ℕ) (f : Fe) → gr.set_b32 v ≡ some f → gr.b32 f ≡ v
  pub b32-length : (f : Fe) → length (gr.b32 f) ≡ 32
  pub x_of-set_xo_var : (f : Fe) (b : Bool) (g : Ge) → gr.set_xo_var f b ≡ some g → gr.x_of g ≡ f

-- The text of a chunk does not begin with a NUL.
abbrev pub IsClear : List ℕ → Type 0
IsClear x = head? x ≢ some 0

skip_zeros-pad : (n : ℕ) (x : List ℕ) → skip_zeros (replicate n 0 ++ x) ≡ skip_zeros x
skip_zeros-pad zero x = refl
skip_zeros-pad (suc n) x = skip_zeros-pad n x

skip_zeros-clear : (x : List ℕ) → IsClear x → skip_zeros x ≡ x
skip_zeros-clear [] h = refl
skip_zeros-clear (zero ∷ x) h = absurd (h refl)
skip_zeros-clear (suc n ∷ x) h = ground arith

-- Only what follows the first byte counts.
skip_zeros-cleared : (v : List ℕ) → length v ≡ 32 → skip_zeros (set v 0 0) ≡ skip_zeros (drop 1 v)
skip_zeros-cleared [] e = refl
skip_zeros-cleared (b ∷ v) e = refl

drop-set : (v : List ℕ) (a : ℕ) → drop 1 (set v 0 a) ≡ drop 1 v
drop-set [] a = refl
drop-set (b ∷ v) a = refl

module _ {Fe Ge Gj Scalar : Type 0} (gr : Group Fe Ge Gj Scalar) (law : IsCurveField gr) where
  field_bytes-tail : (f : Fe) → field_bytes gr f ≡ skip_zeros (drop 1 (gr.b32 f))
  unfolding field_bytes
  field_bytes-tail f =
      let n : ltb 1 (length (gr.b32 f)) ≡ true = ground (arith, law.b32-length f) in
      rw n (skip_zeros-cleared (gr.b32 f) (law.b32-length f))

  -- The bytes behind the first stay.
  lift_biased-tail :
      (a : ℕ) (x : Fe) (g : Ge)
      → lift_biased gr a x ≡ ok g
      → drop 1 (gr.b32 (gr.x_of g)) ≡ drop 1 (gr.b32 x)
  unfolding lift_biased
  lift_biased-tail zero x g e = absurd (panic≢ok e)
  lift_biased-tail (suc a) x g e = elim (Option-cases (gr.set_b32 (set (gr.b32 x) 0 (suc a)))) [
    | inl n ↦ absurd (panic≢ok (rw (n, lift_biased) at e))
    | inr (y, q) ↦ elim (Option-cases (gr.set_xo_var y (gr.is_odd y))) [
      | inl n ↦ drop_tail y q (lift_biased-tail a y g (rw (q, n, lift_biased) at e))
      | inr (ec, q1) ↦ drop_tail y q (
          ap (λ f. drop 1 (gr.b32 f))
            (ap gr.x_of (sym (ok-inj (rw (q, q1, lift_biased) at e)))
              ∙ law.x_of-set_xo_var y _ ec q1))
    ]
  ]
    where
      drop_tail :
          (y : Fe)
          → gr.set_b32 (set (gr.b32 x) 0 (suc a)) ≡ some y
          → drop 1 (gr.b32 (gr.x_of g)) ≡ drop 1 (gr.b32 y)
          → drop 1 (gr.b32 (gr.x_of g)) ≡ drop 1 (gr.b32 x)
      drop_tail y q h = h ∙ ap (drop 1) (law.b32-set_b32 _ y q) ∙ drop-set (gr.b32 x) (suc a)

  pub lift_x-bytes :
      (x : Fe) (g : Ge) → lift_x gr x ≡ ok g → field_bytes gr (gr.x_of g) ≡ field_bytes gr x
  unfolding lift_x
  lift_x-bytes x g e = elim (Option-cases (gr.set_xo_var x (gr.is_odd x))) [
    | inl n ↦
        field_bytes-tail (gr.x_of g)
        ∙ ap skip_zeros (lift_biased-tail 254 x g (rw (n, lift_x) at e))
        ∙ sym (field_bytes-tail x)
    | inr (ec, q) ↦
        ap (field_bytes gr)
          (ap gr.x_of (sym (ok-inj (rw (q, lift_x) at e))) ∙ law.x_of-set_xo_var x _ ec q)
  ]

  pub to_field-bytes :
      (x : List ℕ) (f : Fe)
      → length x ≤ 31
      → IsClear x
      → to_field gr x ≡ ok f
      → field_bytes gr f ≡ x
  unfolding to_field
  to_field-bytes x f n h e =
      elim (Option-cases (gr.set_b32 (set (replicate (32 - length x) 0 ++ x) 0 255))) [
        | inl m ↦ absurd (panic≢ok (rw m at e))
        | inr (y, q) ↦
            ap (field_bytes gr) (sym (ok-inj (rw q at e)))
            ∙ field_bytes-tail y
            ∙ ap (λ v. skip_zeros (drop 1 v)) (law.b32-set_b32 _ y q)
            ∙ ap skip_zeros (tail_of (32 - length x) (omega arith))
            ∙ skip_zeros-pad (31 - length x) x
            ∙ skip_zeros-clear x h
      ]
    where
      tail_of :
          (k : ℕ)
          → k ≡ suc (31 - length x)
          → drop 1 (set (replicate k 0 ++ x) 0 255) ≡ replicate (31 - length x) 0 ++ x
      tail_of zero q = absurd (omega arith)
      tail_of (suc k) q = ap (λ i. replicate i 0 ++ x) (omega arith)
