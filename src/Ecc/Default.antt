-- ===== src/Ecc/Default.antt =====
-- `signers::default` of rings-core/src/ecc/signers.rs.
use rings_node.Base.{Bool, List, ℕ, String}
use rings_node.Error.{Result, ◌>>=◌}
use rings_node.Did.{Did}
use rings_node.Ecc as Ecc
use rings_node.Ecc.{Curve, PublicKey, sign_hash, sig_bytes, is_from}

module _ {Sk Pk Sig RecoveryId : Type 0} (c : Curve Sk Pk Sig RecoveryId) where
  abbrev pub hash : String → List ℕ
  hash msg = c.keccak256 (c.as_bytes msg)

  unfoldable pub sign : Sk → List ℕ → List ℕ
  sign sec h = sign_hash c sec h

  unfoldable pub sign_raw : Sk → String → List ℕ
  unfolding sign
  sign_raw sec msg = sign sec (hash msg)

  unfoldable pub recover : String → List ℕ → Result PublicKey
  recover msg sig = do s ← sig_bytes c sig; Ecc.recover c msg s

  unfoldable pub verify : String → Did → List ℕ → Bool
  unfolding recover
  verify msg address sig = is_from c address (recover msg sig)
