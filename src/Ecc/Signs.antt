-- ===== src/Ecc/Signs.antt =====
-- What is signed verifies: the signature schemes fill what sessions and payloads ask for.
use rings_node.Base.{
  ℕ, ◌+◌, ◌-◌, ◌%◌, ◌<◌, ◌≡◌, refl, ap, ◌∙◌, true, some, Option, List, [], ◌∷◌, ◌++◌, arith, length,
  length-append, length-set, set, String, ◌==◌, ==_iff,
}
use rings_node.Error.{ok}
use rings_node.Session.{AuthorizedInfo, Signers}
use rings_node.Session.Manager.{KeySigner}
use rings_node.Payload.Made.{IsSigner}
use rings_node.Ecc.{
  Curve, PublicKey, pubkey, public_key_address, secret_key_address, sign_hash, sign_raw, sign,
  recover, recover_hash, byte_at,
}
use rings_node.Ecc.Default as Default
use rings_node.Ecc.Eip191 as Eip191
use rings_node.Ecc.Ed25519 as Ed25519
use rings_node.Ecc.Bytes.{take-length, byte_at-length, set-length}

-- What libsecp256k1 promises: `r` and `s` have 32 bytes, a recovery id is 0 to 3, and the key that is recovered
-- from a signature of a hash is the one that signed it.
pub record IsCurve {Sk Pk Sig RecoveryId : Type 0} (c : Curve Sk Pk Sig RecoveryId) : Type 0 where
  pub r_length : (h : List ℕ) (k : Sk) → length (c.sign_message h k).0 ≡ 32
  pub s_length : (h : List ℕ) (k : Sk) → length (c.sign_message h k).1 ≡ 32
  pub id_small : (h : List ℕ) (k : Sk) → (c.sign_message h k).2 < 4
  pub recovers :
      (h : List ℕ) (k : Sk)
      → (σ : Sig) × (id : RecoveryId) × (c.parse_standard
            ((c.sign_message h k).0 ++ (c.sign_message h k).1)
          ≡ some σ)
        × (c.parse_recovery_id (c.sign_message h k).2 ≡ some id)
        × (c.recover_key h σ id ≡ some (c.from_secret_key k))

shifted-append :
    (rs : List ℕ) (i : ℕ)
    → length rs ≡ 64
    → Eip191.shifted (rs ++ i ∷ []) ≡ rs ++ ((i + 27) % 256) ∷ []
shifted-append rs i n =
    ap (λ b. set (rs ++ i ∷ []) 64 ((b + 27) % 256)) (byte_at-length rs i 64 n)
    ∙ set-length rs i _ 64 n

unshifted-append :
    (rs : List ℕ) (i : ℕ)
    → length rs ≡ 64
    → Eip191.unshifted (rs ++ i ∷ []) ≡ rs ++ ((i + 256 - 27) % 256) ∷ []
unshifted-append rs i n =
    ap (λ b. set (rs ++ i ∷ []) 64 ((b + 256 - 27) % 256)) (byte_at-length rs i 64 n)
    ∙ set-length rs i _ 64 n

module _ {Sk Pk Sig RecoveryId : Type 0} (c : Curve Sk Pk Sig RecoveryId) (law : IsCurve c) where
  rs-length : (h : List ℕ) (k : Sk) → length ((c.sign_message h k).0 ++ (c.sign_message h k).1) ≡ 64
  rs-length h k = omega (
    arith,
    length-append (c.sign_message h k).0 (c.sign_message h k).1,
    law.r_length h k,
    law.s_length h k,
  )

  sign_hash-length : (k : Sk) (h : List ℕ) → length (sign_hash c k h) ≡ 65
  unfolding sign_hash
  sign_hash-length k h = omega (
    arith,
    length-append ((c.sign_message h k).0 ++ (c.sign_message h k).1) ((c.sign_message h k).2 ∷ []),
    rs-length h k,
  )

  recover_hash-sign_hash :
      (k : Sk) (h : List ℕ) → recover_hash c h (sign_hash c k h) ≡ ok (pubkey c k)
  unfolding recover_hash sign_hash
  recover_hash-sign_hash k h =
      let rs = (c.sign_message h k).0 ++ (c.sign_message h k).1 in
      let (σ, id, q1, q2, q3) = law.recovers h k in
      let whole = take-length rs ((c.sign_message h k).2 ∷ []) 64 (rs-length h k) in
      let last = byte_at-length rs (c.sign_message h k).2 64 (rs-length h k) in
      rw (ap c.parse_standard whole ∙ q1, ap c.parse_recovery_id last ∙ q2, q3) refl

  address-pubkey : (k : Sk) → (public_key_address c (pubkey c k) == secret_key_address c k) ≡ true
  unfolding secret_key_address
  address-pubkey k = (==_iff _ _).1 refl

  -- What `signers::default::sign_raw` signs with a key is from the address of that key.
  default_verify :
      (k : Sk) (msg : String)
      → Default.verify c msg (secret_key_address c k) (Default.sign_raw c k msg) ≡ true
  unfolding Default.verify Default.recover Default.sign_raw Default.sign recover
  default_verify k msg =
      let len = (==_iff _ _).1 (sign_hash-length k (Default.hash c msg)) in
      rw (len, len, recover_hash-sign_hash k (Default.hash c msg), address-pubkey k) refl

  unshifted-shifted :
      (k : Sk) (h : List ℕ) → Eip191.unshifted (Eip191.shifted (sign_hash c k h)) ≡ sign_hash c k h
  unfolding sign_hash
  unshifted-shifted k h =
      let rs = (c.sign_message h k).0 ++ (c.sign_message h k).1 in
      let i = (c.sign_message h k).2 in
      let n = rs-length h k in
      let back : ((i + 27) % 256 + 256 - 27) % 256 ≡ i = omega (arith, law.id_small h k) in
      ap Eip191.unshifted (shifted-append rs i n)
      ∙ unshifted-append rs ((i + 27) % 256) n
      ∙ ap (λ b. rs ++ b ∷ []) back

  -- And so for `signers::eip191`, whose signatures keep the recovery id 27 higher.
  eip191_verify :
      (k : Sk) (msg : String)
      → Eip191.verify c msg (secret_key_address c k) (Eip191.sign_raw c k msg) ≡ true
  unfolding Eip191.verify Eip191.recover Eip191.sign_raw Eip191.sign
  eip191_verify k msg =
      let h = Eip191.hash c msg in
      let len = (==_iff _ _).1 (
        length-set (sign_hash c k h) 64 ((byte_at (sign_hash c k h) 64 + 27) % 256)
        ∙ sign_hash-length k h) in
      rw (len, unshifted-shifted k h, recover_hash-sign_hash k h, address-pubkey k) refl

-- The schemes as sessions use them, with the printing of what is signed.
module _ {Sk Pk Sig RecoveryId T : Type 0} (c : Curve Sk Pk Sig RecoveryId)
    (print_auth : AuthorizedInfo PublicKey → Option String) (print : T → Option String)
    (pack : String → ℕ → ℕ → String) where
  abbrev pub signers : Signers PublicKey T
  signers = record {
    print_auth = print_auth;
    print = print;
    pack = pack;
    verify_default = Default.verify c;
    verify_eip191 = Eip191.verify c;
    verify_ed25519 = Ed25519.verify c;
    recover_default = Default.recover c;
    recover_eip191 = Eip191.recover c;
  }

  abbrev pub key_signer : KeySigner PublicKey Sk
  key_signer = record {
    address = secret_key_address c;
    pubkey_address = public_key_address c;
    sign_with = sign c;
    sign_raw = Default.sign_raw c;
  }

  -- The schemes of the code keep what sessions and payloads assume of them: whatever a key signs, with
  -- `sign` or with the default scheme, verifies under the address of that key.
  pub signers-IsSigner : IsCurve c → IsSigner signers key_signer
  unfolding sign sign_raw
  signers-IsSigner law = record {
    sign_with_ok = λ k s. unfold Default.sign_raw Default.sign in default_verify c law k s;
    sign_raw_ok = default_verify c law;
  }
