-- ===== src/Ecc/Text.antt =====
-- The texts of a public key in rings-core/src/ecc/types.rs. The kinds of base58 are the record `KeyBase58`, a
-- parameter.
use rings_node.Base.{
  ℕ, ◌≡◌, sym, ap, ◌∙◌, arith, Option, some, List, ◌∷◌, String, length, ◌==◌, if◌then◌else◌,
}
use rings_node.Error.{
  err≢ok, Result, ok, err, ◌>>=◌, ok-inj, public_key_bad_format, encode as encode_error,
}
use rings_node.Session.{ok_or}
use rings_node.Session.Found.{ok_or-some}
use rings_node.Ecc.{PublicKey}

pub record KeyBase58 : Type 0 where
  -- The base58 of the crate `base58`
  pub from_base58 : String → Option (List ℕ)
  pub to_base58 : List ℕ → String
  -- `base58_monero`, with and without the check
  pub encode_check : List ℕ → Option String
  pub decode_check : String → Option (List ℕ)
  pub decode_uncheck : String → Option (List ℕ)

-- `PublicKey::from_u8`: 33 bytes, or 32 with a zero in front.
unfoldable pub from_u8 : List ℕ → Result PublicKey
from_u8 value =
    if length value == 32
    then ok (0 ∷ value)
    else if length value == 33
    then ok value
    else err public_key_bad_format

module _ (b58 : KeyBase58) where
  abbrev pub read_key : Option (List ℕ) → Result PublicKey
  read_key o = do value ← ok_or o (err public_key_bad_format); from_u8 value

  unfoldable pub try_from_b58t : String → Result PublicKey
  try_from_b58t value = read_key (b58.from_base58 value)

  unfoldable pub try_from_b58m : String → Result PublicKey
  try_from_b58m value = read_key (b58.decode_check value)

  unfoldable pub try_from_b58m_uncheck : String → Result PublicKey
  try_from_b58m_uncheck value = read_key (b58.decode_uncheck value)

  unfoldable pub to_base58_string : PublicKey → Result String
  to_base58_string key = ok (b58.to_base58 key)

  -- `Serialize` and `Visitor::visit_str`
  unfoldable pub serialize : PublicKey → Result String
  serialize key = ok_or (b58.encode_check key) (err encode_error)

  abbrev pub visit_str : String → Result PublicKey
  visit_str value = try_from_b58m value

pub record IsKeyBase58 (b58 : KeyBase58) : Type 0 where
  pub from-to : (bytes : List ℕ) → b58.from_base58 (b58.to_base58 bytes) ≡ some bytes
  pub decode-encode :
      (bytes : List ℕ) (s : String)
      → b58.encode_check bytes ≡ some s
      → b58.decode_check s ≡ some bytes

from_u8-whole : (key : PublicKey) → length key ≡ 33 → from_u8 key ≡ ok key
unfolding from_u8
from_u8-whole key n = ground arith

module _ (b58 : KeyBase58) (law : IsKeyBase58 b58) where
  -- A key of 33 bytes is read back from each of its texts.
  try_from_b58t-to_base58_string :
      (key : PublicKey) (s : String)
      → length key ≡ 33
      → to_base58_string b58 key ≡ ok s
      → try_from_b58t b58 s ≡ ok key
  unfolding to_base58_string try_from_b58t
  try_from_b58t-to_base58_string key s n e =
      rw (ap b58.from_base58 (sym (ok-inj e)) ∙ law.from-to key) (from_u8-whole key n)

  visit_str-serialize :
      (key : PublicKey) (s : String)
      → length key ≡ 33
      → serialize b58 key ≡ ok s
      → visit_str b58 s ≡ ok key
  unfolding serialize try_from_b58m
  visit_str-serialize key s n e =
      rw (law.decode-encode key s (ok_or-some _ _ s (λ b. err≢ok) e)) (from_u8-whole key n)
