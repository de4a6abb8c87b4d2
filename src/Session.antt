-- ===== src/Session.antt =====
-- Session of rings-core/src/session.rs, and MessageVerification of
-- rings-core/src/message/protocols/verify.rs. The signature schemes of rings-core/src/ecc/signers.rs and
-- the printing of serde_json are the record `Signers`, a parameter, over any type of public keys. `now` is
-- what `get_epoch_ms` gives; one check reads it once here. A `u128` has 128 bits.
pub mod Trust
pub mod Manager
pub mod Samples
pub mod Found
mod Examples
use rings_node.Base.{
  ℕ, ◌+◌, ◌%◌, ◌^◌, Bool, true, false, not, Option, none, some, List, String, ltb, if◌then◌else◌,
}
use rings_node.Error.{
  Result, ok, err, panic, ◌>>=◌, serialize_to_string, verify_signature_failed,
  ed_dsa_public_key_not_found,
}
use rings_node.Did.{Did}

-- `DEFAULT`, `EIP191` and `EdDSA`
pub data Signer : Type 0 where
  default_signer eip191 ed_dsa : Signer

-- `Some` and `Never`
pub data Ttl : Type 0 where
  some_ms : ℕ → Ttl
  never : Ttl

pub record Authorizer (K : Type 0) : Type 0 where
  pub did : Did
  pub pubkey : Option K

pub record AuthorizedInfo (K : Type 0) : Type 0 where
  pub authorizer : Authorizer K
  pub signer : Signer
  pub ttl_ms : Ttl
  pub ts_ms : ℕ
  pub session_id : Did

pub record Session (K : Type 0) : Type 0 where
  pub sig : List ℕ
  pub auth : AuthorizedInfo K

pub record MessageVerification (K : Type 0) : Type 0 where
  pub session : Session K
  pub ttl_ms : ℕ
  pub ts_ms : ℕ
  pub sig : List ℕ

-- The calls into other code. `print` is `serde_json::to_string` on a message, `pack` the `write!` of
-- `pack_msg`.
pub record Signers (K T : Type 0) : Type 0 where
  pub print_auth : AuthorizedInfo K → Option String
  pub print : T → Option String
  pub pack : String → ℕ → ℕ → String
  pub verify_default : String → Did → List ℕ → Bool
  pub verify_eip191 : String → Did → List ℕ → Bool
  pub verify_ed25519 : String → Did → List ℕ → K → Bool
  pub recover_default : String → List ℕ → Result K
  pub recover_eip191 : String → List ℕ → Result K

abbrev pub ok_or {ℓ} : {A : Type ℓ} → Option A → Result A → Result A
ok_or none e = e
ok_or (some a) e = ok a

module _ {K T : Type 0} (sg : Signers K T) where
  unfoldable pub is_expired : ℕ → Session K → Bool
  is_expired now self = elim (self.auth.ttl_ms) [
    | some_ms ttl_ms ↦ ltb ((self.auth.ts_ms + ttl_ms) % 2 ^ 128) now
    | never ↦ false
  ]

  unfoldable pub authorizer_pubkey : Session K → Result K
  authorizer_pubkey self = do
    auth ← ok_or (sg.print_auth self.auth) (err serialize_to_string)
    elim (self.auth.signer) [
      | default_signer ↦ sg.recover_default auth self.sig
      | eip191 ↦ sg.recover_eip191 auth self.sig
      | ed_dsa ↦ ok_or self.auth.authorizer.pubkey (err ed_dsa_public_key_not_found)
    ]

  -- The match on the signer in `Session::verify`.
  unfoldable pub signed : Session K → String → Bool
  unfolding authorizer_pubkey
  signed self auth_str = elim (self.auth.signer) [
    | default_signer ↦ sg.verify_default auth_str self.auth.authorizer.did self.sig
    | eip191 ↦ sg.verify_eip191 auth_str self.auth.authorizer.did self.sig
    | ed_dsa ↦ elim (authorizer_pubkey self) [
      | ok p ↦ sg.verify_ed25519 auth_str self.auth.authorizer.did self.sig p
      | _ ↦ false
    ]
  ]

  abbrev pub signed_if : Session K → Option String → Bool
  signed_if self none = false
  signed_if self (some auth_str) = signed self auth_str

  unfoldable pub verify : ℕ → Session K → Bool
  verify now self = if is_expired now self then false else signed_if self (sg.print_auth self.auth)

  -- `Session::did`
  unfoldable pub delegated_did : ℕ → Session K → Result Did
  delegated_did now self =
      if not (verify now self) then err verify_signature_failed else ok self.auth.session_id

  -- `MessageVerification::pack_msg`
  unfoldable pub pack_msg : T → ℕ → ℕ → Result String
  pack_msg content ts_ms ttl_ms = do
    msg ← ok_or (sg.print content) (err serialize_to_string)
    ok (sg.pack msg ts_ms ttl_ms)

  -- The test on the identifier and the message in `MessageVerification::verify`.
  abbrev pub both_ok : Result Did → Result String → List ℕ → Bool
  both_ok (ok did) (ok msg) sig = sg.verify_default msg did sig
  both_ok _ _ sig = false

  -- `MessageVerification::verify`
  unfoldable pub verify_message : ℕ → MessageVerification K → T → Bool
  verify_message now self content =
      if not (verify now self.session)
      then false
      else both_ok (delegated_did now self.session) (pack_msg content self.ts_ms self.ttl_ms)
          self.sig
