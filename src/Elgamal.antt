-- ===== src/Elgamal.antt =====
-- rings-core/src/ecc/elgamal.rs: ElGamal encryption of a text with the points of secp256k1. The field, the points and the
-- scalars of libsecp256k1 are the record `Group`, a parameter; its values count as normalized. A text is its bytes, a
-- `CurveEle` a public key.
pub mod Text
pub mod Cipher
mod Examples
use rings_node.Base.{
  ℕ, zero, suc, ◌-◌, Bool, Option, none, some, List, [], ◌∷◌, ◌++◌, length, set, replicate, map,
  ltb, ◌==◌, if◌then◌else◌,
}
use rings_node.Error.{
  collected, Result, ok, err, panic, ◌>>=◌, utf8_encoding, ecdsa_public_key_bad_format,
  invalid_public_key,
}
use rings_node.Chunk.{chunks_of}
use rings_node.Ecc.{PublicKey}
use rings_node.Session.{ok_or}

pub record Group (Fe Ge Gj Scalar : Type 0) : Type 0 where
  -- `set_b32`, which says whether the bytes are a field element, and `b32`
  pub set_b32 : List ℕ → Option Fe
  pub b32 : Fe → List ℕ
  pub is_odd : Fe → Bool
  -- `set_xo_var`: the point with that abscissa, if there is one
  pub set_xo_var : Fe → Bool → Option Ge
  pub x_of : Ge → Fe
  pub ecmult_const : Ge → Scalar → Gj
  pub ecmult_gen : Scalar → Gj
  pub add_ge : Gj → Ge → Gj
  pub from_gej : Gj → Ge
  pub from_ge : Ge → Gj
  pub neg : Ge → Ge
  pub affine_of_key : PublicKey → Option Ge
  pub key_of_affine : Ge → Option PublicKey
  pub is_utf8 : List ℕ → Bool

-- `skip_while(|n| *n == 0)`
abbrev pub skip_zeros : List ℕ → List ℕ
skip_zeros [] = []
skip_zeros (n ∷ l) = let rest = skip_zeros l in if n == 0 then rest else n ∷ l

abbrev pub concat : List (List ℕ) → List ℕ
concat [] = []
concat (x ∷ l) = x ++ concat l

module _ {Fe Ge Gj Scalar : Type 0} (gr : Group Fe Ge Gj Scalar) where
  -- One chunk of `str_to_field`: zeros in front up to 32 bytes, of which the first becomes 255.
  unfoldable pub to_field : List ℕ → Result Fe
  to_field x = ok_or (gr.set_b32 (set (replicate (32 - length x) 0 ++ x) 0 255)) panic

  unfoldable pub str_to_field : List ℕ → Result (List Fe)
  unfolding to_field
  str_to_field s = collected to_field (chunks_of (length s) 31 s)

  abbrev pub cleared : List ℕ → List ℕ
  cleared v = if ltb 1 (length v) then set v 0 0 else v

  unfoldable pub field_bytes : Fe → List ℕ
  field_bytes x = skip_zeros (cleared (gr.b32 x))

  unfoldable pub field_to_str : List Fe → Result (List ℕ)
  unfolding field_bytes
  field_to_str f =
      let bytes = concat (map field_bytes f) in
      if gr.is_utf8 bytes then ok bytes else err utf8_encoding

  -- `lift_x` with a bias, which becomes the first byte.
  unfoldable pub lift_biased : ℕ → Fe → Result Ge
  lift_biased zero x = panic
  lift_biased (suc a) x = elim (gr.set_b32 (set (gr.b32 x) 0 (suc a))) [
    | none ↦ panic
    | some y ↦ elim (gr.set_xo_var y (gr.is_odd y)) [ none ↦ lift_biased a y | some ec ↦ ok ec ]
  ]

  unfoldable pub lift_x : Fe → Result Ge
  unfolding lift_biased
  lift_x x = elim (gr.set_xo_var x (gr.is_odd x)) [ none ↦ lift_biased 254 x | some ec ↦ ok ec ]

  unfoldable pub str_to_affine : List ℕ → Result (List Ge)
  unfolding str_to_field lift_x
  str_to_affine s = do fields ← str_to_field s; collected lift_x fields

  unfoldable pub affine_to_str : List Ge → Result (List ℕ)
  unfolding field_to_str
  affine_to_str a = field_to_str (map gr.x_of a)

  -- The pair of points for one point, and the pair of keys.
  unfoldable pub sealed : Ge → Scalar → Ge → Result (PublicKey × PublicKey)
  sealed h random_sar c = do
    let c1 = gr.from_gej (gr.ecmult_gen random_sar)
    let c2 = gr.from_gej (gr.add_ge (gr.ecmult_const h random_sar) c)
    k1 ← ok_or (gr.key_of_affine c1) (err invalid_public_key)
    k2 ← ok_or (gr.key_of_affine c2) (err invalid_public_key)
    ok (k1, k2)

  unfoldable pub encrypt : Scalar → List ℕ → PublicKey → Result (List (PublicKey × PublicKey))
  unfolding str_to_affine sealed
  encrypt random_sar s k = do
    h ← ok_or (gr.affine_of_key k) (err ecdsa_public_key_bad_format)
    affines ← str_to_affine s
    collected (sealed h random_sar) affines

  unfoldable pub opened : Scalar → PublicKey × PublicKey → Result Ge
  opened sar (k1, k2) = do
    c1 ← ok_or (gr.affine_of_key k1) panic
    c2 ← ok_or (gr.affine_of_key k2) panic
    let t = gr.neg (gr.from_gej (gr.ecmult_const c1 sar))
    ok (gr.from_gej (gr.add_ge (gr.from_ge c2) t))

  unfoldable pub decrypt : List (PublicKey × PublicKey) → Scalar → Result (List ℕ)
  unfolding opened affine_to_str
  decrypt m sar = do affines ← collected (opened sar) m; affine_to_str affines
