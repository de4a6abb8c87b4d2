-- ===== src/Elgamal/Examples.antt =====
-- The theorem on encryption at a text of two letters, over a group of which only the neutral point is a multiple, and
-- where no point has an abscissa that begins with 255.
use rings_node.Base.{
  none≢some, ℕ, ◌≡◌, refl, ap, sym, Bool, true, false, ◌≢◌, ◌∙◌, head?, Bool-cases, Option, none,
  some, some-inj, inl, inr, List, [], ◌∷◌, ◌++◌, arith, length, replicate, ◌==◌, ==_iff,
  if◌then◌else◌,
}
use rings_node.Error.{ok}
use rings_node.Chunk.{chunks_of}
use rings_node.Ecc.{PublicKey}
use rings_node.Elgamal.{
  Group, to_field, str_to_field, lift_biased, lift_x, str_to_affine, sealed, encrypt, decrypt,
}
use rings_node.Elgamal.Text.{IsCurveField}
use rings_node.Elgamal.Cipher.{IsGroup, decrypt-encrypt}

-- `none` is the neutral point.
abbrev Point : Type 0
Point = Option (List ℕ)

abbrev read_b32 : List ℕ → Option (List ℕ)
read_b32 v = if length v == 32 then some v else none

abbrev bytes_of : List ℕ → List ℕ
bytes_of f = if length f == 32 then f else replicate 32 0

abbrev is_biased : List ℕ → Bool
is_biased [] = false
is_biased (b ∷ f) = b == 255

abbrev point_of : List ℕ → Bool → Option Point
point_of f odd = if is_biased f then none else some (some f)

abbrev abscissa : Point → List ℕ
abscissa none = []
abscissa (some f) = f

abbrev plus : Point → Point → Point
plus none b = b
plus (some f) none = some f
plus (some f) (some g) = none

abbrev of_key : PublicKey → Option Point
of_key [] = some none
of_key (b ∷ f) = some (some f)

abbrev to_key : Point → Option PublicKey
to_key none = some []
to_key (some f) = some (2 ∷ f)

abbrev group : Group (List ℕ) Point Point ℕ
group = record {
  set_b32 = read_b32;
  b32 = bytes_of;
  is_odd = λ f. false;
  set_xo_var = point_of;
  x_of = abscissa;
  ecmult_const = λ a r. none;
  ecmult_gen = λ r. none;
  add_ge = plus;
  from_gej = λ a. a;
  from_ge = λ a. a;
  neg = λ a. a;
  affine_of_key = of_key;
  key_of_affine = to_key;
  is_utf8 = λ s. true;
}

bytes_of-read_b32 : (v f : List ℕ) → read_b32 v ≡ some f → bytes_of f ≡ v
bytes_of-read_b32 v f e = elim (Bool-cases (length v == 32)) [
  | inl q ↦ ap bytes_of (sym (some-inj (rw q at e))) ∙ rw q refl
  | inr q ↦ absurd (none≢some (rw q at e))
]

bytes_of-length : (f : List ℕ) → length (bytes_of f) ≡ 32
bytes_of-length f = elim (Bool-cases (length f == 32)) [
  | inl q ↦ rw q ((==_iff _ _).0 q)
  | inr q ↦ rw q refl
]

abscissa-point_of : (f : List ℕ) (b : Bool) (g : Point) → point_of f b ≡ some g → abscissa g ≡ f
abscissa-point_of f b g e = elim (Bool-cases (is_biased f)) [
  | inl q ↦ absurd (none≢some (rw q at e))
  | inr q ↦ ap abscissa (sym (some-inj (rw q at e)))
]

of_key-to_key : (a : Point) (k : PublicKey) → to_key a ≡ some k → of_key k ≡ some a
of_key-to_key none k e = ap of_key (sym (some-inj e))
of_key-to_key (some f) k e = ap of_key (sym (some-inj e))

plus-none : (c : Point) → plus c none ≡ c
plus-none none = refl
plus-none (some f) = refl

curve_field : IsCurveField group
curve_field = record {
  b32-set_b32 = bytes_of-read_b32;
  b32-length = bytes_of-length;
  x_of-set_xo_var = abscissa-point_of;
}

group_laws : IsGroup group
group_laws = record {
  add_neg = λ a r c. plus-none c;
  mult_comm = λ r s. refl;
  affine-key = of_key-to_key;
}

abbrev text : List ℕ
text = 104 ∷ 105 ∷ []

abbrev sent : List (PublicKey × PublicKey)
sent = ([], 2 ∷ 254 ∷ replicate 29 0 ++ text) ∷ []

encrypts : encrypt group 7 text [] ≡ ok sent
unfolding chunks_of encrypt str_to_affine str_to_field to_field lift_x lift_biased sealed
encrypts = refl

letters : head? text ≢ some 0
letters e = absurd (omega (arith, some-inj e))

decrypt-encrypt_example : decrypt group sent 3 ≡ ok text
unfolding chunks_of
decrypt-encrypt_example =
    decrypt-encrypt group curve_field group_laws text [] 3 7 sent refl (letters, tt) refl encrypts
