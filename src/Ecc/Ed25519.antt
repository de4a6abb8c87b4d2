-- ===== src/Ecc/Ed25519.antt =====
-- `signers::ed25519` of rings-core/src/ecc/signers.rs.
use rings_node.Base.{ℕ, Bool, false, not, List, drop, length, String, ◌==◌, if◌then◌else◌}
use rings_node.Did.{Did}
use rings_node.Ecc.{Curve, PublicKey, public_key_address}

module _ {Sk Pk Sig RecoveryId : Type 0} (c : Curve Sk Pk Sig RecoveryId) where
  unfoldable pub verify : String → Did → List ℕ → PublicKey → Bool
  verify msg address sig pubkey =
      if not (public_key_address c pubkey == address)
      then false
      else if not (length sig == 64)
      then false
      else c.verify_ed25519 (drop 1 pubkey) sig (c.as_bytes msg)
