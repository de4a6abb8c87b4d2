-- ===== src/Ecc.antt =====
-- rings-core/src/ecc/mod.rs and signers.rs: addresses of keys, signatures, and how they are checked. libsecp256k1,
-- ed25519_dalek, keccak256 and the bytes of a text are the record `Curve`, a parameter, over any types of keys and
-- signatures of the library. A `PublicKey` is its 33 bytes, an `Address` the number that its 20 bytes spell, a
-- `SecretKey` the library's.
pub mod Default
pub mod Eip191
pub mod Ed25519
pub mod Bytes
pub mod Text
pub mod Signs
mod Examples
use rings_node.Base.{
  ℕ, ◌+◌, ◌-◌, ◌*◌, ◌%◌, Bool, true, false, not, Option, none, some, String, List, [], ◌∷◌, ◌++◌,
  take, drop, set, length, get_elem?, ◌==◌, if◌then◌else◌,
}
use rings_node.Error.{
  Result, ok, err, panic, ◌>>=◌, ecdsa_public_key_bad_format, try_from_slice,
  libsecp256k1_signature_parse_standard, libsecp256k1_recover_id_parse, libsecp256k1_recover,
}
use rings_node.Did.{Did}
use rings_node.Session.{ok_or}

abbrev pub PublicKey : Type 0
PublicKey = List ℕ

pub record Curve (Sk Pk Sig RecoveryId : Type 0) : Type 0 where
  pub as_bytes : String → List ℕ
  -- A number in decimal digits, and what `b'\x19'`, the text and the digits make in `format!`
  pub digits : ℕ → List ℕ
  pub keccak256 : List ℕ → List ℕ
  pub parse_compressed : List ℕ → Option Pk
  pub serialize_compressed : Pk → List ℕ
  pub serialize : Pk → List ℕ
  pub from_secret_key : Sk → Pk
  -- The numbers `r` and `s` in 32 bytes each, and the recovery id
  pub sign_message : List ℕ → Sk → List ℕ × List ℕ × ℕ
  pub parse_standard : List ℕ → Option Sig
  pub parse_recovery_id : ℕ → Option RecoveryId
  pub recover_key : List ℕ → Sig → RecoveryId → Option Pk
  -- `ed25519_dalek`: both parses and `verify`
  pub verify_ed25519 : (key sig message : List ℕ) → Bool

-- `Address::from_slice`
abbrev pub of_be_bytes : ℕ → List ℕ → ℕ
of_be_bytes n [] = n
of_be_bytes n (b ∷ bytes) = of_be_bytes (n * 256 + b) bytes

abbrev pub or_zero : Option ℕ → ℕ
or_zero none = 0
or_zero (some b) = b

-- `sig[i]` within the bounds
abbrev pub byte_at : List ℕ → ℕ → ℕ
byte_at sig i = or_zero (get_elem? sig i)

module _ {Sk Pk Sig RecoveryId : Type 0} (c : Curve Sk Pk Sig RecoveryId) where
  abbrev pub address_hash : Option Pk → PublicKey → List ℕ
  address_hash (some pk) pubkey = c.keccak256 (drop 1 (c.serialize pk))
  address_hash none pubkey = c.keccak256 (drop 1 pubkey)

  unfoldable pub public_key_address : PublicKey → Did
  public_key_address pubkey =
      of_be_bytes 0 (drop 12 (address_hash (c.parse_compressed pubkey) pubkey))

  -- `From<libsecp256k1::PublicKey> for PublicKey`, and `SecretKey::pubkey`
  abbrev pub pubkey : Sk → PublicKey
  pubkey key = c.serialize_compressed (c.from_secret_key key)

  unfoldable pub secret_key_address : Sk → Did
  unfolding public_key_address
  secret_key_address secret_key = public_key_address (pubkey secret_key)

  unfoldable pub sign_hash : Sk → List ℕ → List ℕ
  sign_hash key message_hash =
      let signed = c.sign_message message_hash key in (signed.0 ++ signed.1) ++ signed.2 ∷ []

  unfoldable pub sign_raw : Sk → List ℕ → List ℕ
  unfolding sign_hash
  sign_raw key message = sign_hash key (c.keccak256 message)

  -- `SecretKey::sign`
  unfoldable pub sign : Sk → String → List ℕ
  unfolding sign_raw
  sign key message = sign_raw key (c.as_bytes message)

  unfoldable pub recover_hash : List ℕ → List ℕ → Result PublicKey
  recover_hash message_hash sig = do
    s ← ok_or (c.parse_standard (take 64 sig)) (err libsecp256k1_signature_parse_standard)
    id ← ok_or (c.parse_recovery_id (byte_at sig 64)) (err libsecp256k1_recover_id_parse)
    pk ← ok_or (c.recover_key message_hash s id) (err libsecp256k1_recover)
    ok (c.serialize_compressed pk)

  -- `signature.as_ref().try_into()` to 65 bytes
  abbrev pub sig_bytes : List ℕ → Result (List ℕ)
  sig_bytes signature = if length signature == 65 then ok signature else err try_from_slice

  unfoldable pub recover : String → List ℕ → Result PublicKey
  unfolding recover_hash
  recover message signature = do
    sig ← sig_bytes signature
    recover_hash (c.keccak256 (c.as_bytes message)) sig

  -- The rest of both `verify`.
  abbrev pub is_from : Did → Result PublicKey → Bool
  is_from address (ok p) = public_key_address p == address
  is_from address _ = false
