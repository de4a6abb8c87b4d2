-- ===== src/Ecc/Eip191.antt =====
-- `signers::eip191` of rings-core/src/ecc/signers.rs: the last byte of a signature is a `u8`, which wraps.
use rings_node.Base.{ℕ, ◌+◌, ◌-◌, ◌%◌, Bool, List, ◌∷◌, ◌++◌, length, set, String}
use rings_node.Error.{Result, ◌>>=◌}
use rings_node.Did.{Did}
use rings_node.Ecc.{Curve, PublicKey, sign_hash, recover_hash, byte_at, sig_bytes, is_from}

-- `sig[64] += 27` and `sig[64] -= 27`
abbrev pub shifted : List ℕ → List ℕ
shifted sig = set sig 64 ((byte_at sig 64 + 27) % 256)

abbrev pub unshifted : List ℕ → List ℕ
unshifted sig = set sig 64 ((byte_at sig 64 + 256 - 27) % 256)

module _ {Sk Pk Sig RecoveryId : Type 0} (c : Curve Sk Pk Sig RecoveryId) where
  abbrev pub hash : String → List ℕ
  hash msg =
      let bytes = c.as_bytes msg in
      c.keccak256
        ((25 ∷ c.as_bytes "Ethereum Signed Message:" ++ 10 ∷ c.digits (length bytes)) ++ bytes)

  unfoldable pub sign : Sk → List ℕ → List ℕ
  sign sec h = shifted (sign_hash c sec h)

  unfoldable pub sign_raw : Sk → String → List ℕ
  unfolding sign
  sign_raw sec msg = sign sec (hash msg)

  unfoldable pub recover : String → List ℕ → Result PublicKey
  recover msg sig = do sig_byte ← sig_bytes c sig; recover_hash c (hash msg) (unshifted sig_byte)

  unfoldable pub verify : String → Did → List ℕ → Bool
  unfolding recover
  verify msg address sig = is_from c address (recover msg sig)
