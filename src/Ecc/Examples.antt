-- ===== src/Ecc/Examples.antt =====
-- The theorem on the signature schemes, over keys that are one number and signatures that hold the key of the signer.
use rings_node.Base.{
  ℕ, ◌≡◌, refl, false, Option, some, List, [], ◌∷◌, ◌++◌, head?, replicate, arith,
}
use rings_node.Payload.Made.{IsSigner}
use rings_node.Ecc.{Curve, public_key_address, secret_key_address, sign_hash}
use rings_node.Ecc.Eip191 as Eip191
use rings_node.Ecc.Signs.{IsCurve, signers, key_signer, signers-IsSigner}

abbrev first : List ℕ → Option ℕ
first = head?

-- The hash keeps the bytes it is given.
abbrev curve : Curve ℕ ℕ (List ℕ) ℕ
curve = record {
  as_bytes = λ s. 1 ∷ 2 ∷ [];
  digits = λ n. 48 ∷ n ∷ [];
  keccak256 = λ bytes. bytes;
  parse_compressed = first;
  serialize_compressed = λ pk. pk ∷ [];
  serialize = λ pk. replicate 13 0 ++ pk ∷ [];
  from_secret_key = λ sk. sk;
  sign_message = λ h sk. (sk ∷ replicate 31 0, replicate 32 0, 1);
  parse_standard = λ rs. some rs;
  parse_recovery_id = λ id. some id;
  recover_key = λ h sig id. first sig;
  verify_ed25519 = λ key sig message. false;
}

curve_laws : IsCurve curve
curve_laws = record {
  r_length = λ h k. refl;
  s_length = λ h k. refl;
  id_small = λ h k. omega arith;
  recovers = λ h k. (k ∷ replicate 63 0, 1, refl, refl, refl);
}

address_test : secret_key_address curve 9 ≡ 9
unfolding secret_key_address public_key_address
address_test = refl

eip191_test : Eip191.sign curve 9 [] ≡ 9 ∷ replicate 63 0 ++ 28 ∷ []
unfolding Eip191.sign sign_hash
eip191_test = refl

signers-IsSigner_example :
    IsSigner {T = ℕ}
      (signers curve (λ a. some "auth") (λ t. some "text") (λ s ts ttl. s))
      (key_signer {T = ℕ} curve (λ a. some "auth") (λ t. some "text") (λ s ts ttl. s))
signers-IsSigner_example =
    signers-IsSigner curve (λ a. some "auth") (λ t. some "text") (λ s ts ttl. s) curve_laws
