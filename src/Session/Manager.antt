-- ===== src/Session/Manager.antt =====
-- `SessionManager` of rings-core/src/session.rs. The `RwLock` is the value and whether someone else holds it
-- for writing or for reading. The random session key is an argument, with the address that the curve code
-- gives it; signing is the record `KeySigner`, a parameter.
use rings_node.Base.{ℕ, Option, none, some, List, String}
use rings_node.Error.{Result, ok, err, ◌>>=◌, serialize_to_string, session_try_lock_failed}
use rings_node.Did.{Did}
use rings_node.Session.{
  Signer, default_signer, ed_dsa, Ttl, some_ms, AuthorizedInfo, Session, Signers, ok_or,
}

-- `DEFAULT_SESSION_TTL_MS`: 2592000000 fits a `usize` of 64 bits.
abbrev pub default_session_ttl_ms : ℕ
default_session_ttl_ms = 2592000000

pub data Holder : Type 0 where
  nobody reader writer : Holder

pub record SessionManager (K Sk : Type 0) : Type 0 where
  pub session_of : Session K
  pub key_of : Sk
  pub held : Holder

-- `key.address()`, `pubkey.address()`, `key.sign(msg)` and `signers::default::sign_raw(key, msg)`.
pub record KeySigner (K Sk : Type 0) : Type 0 where
  pub address : Sk → Did
  pub pubkey_address : K → Did
  pub sign_with : Sk → String → List ℕ
  pub sign_raw : Sk → String → List ℕ

abbrev pub unwrap_or {ℓ} : {A : Type ℓ} → Option A → A → A
unwrap_or none a = a
unwrap_or (some b) a = b

-- `try_read`
abbrev pub try_read : {A : Type 0} → Holder → A → Result A
try_read writer a = err session_try_lock_failed
try_read _ a = ok a

-- `try_write`
abbrev pub try_write : {A : Type 0} → Holder → A → Result A
try_write nobody a = ok a
try_write _ a = err session_try_lock_failed

-- `Session::new`
abbrev pub new_session : {K : Type 0} → List ℕ → AuthorizedInfo K → Session K
new_session sig auth_info = record { sig = sig; auth = auth_info }

module _ {K Sk : Type 0} where
  abbrev pub new_manager : List ℕ → AuthorizedInfo K → Sk → SessionManager K Sk
  new_manager sig auth_info session_key = record {
    session_of = new_session sig auth_info;
    key_of = session_key;
    held = nobody;
  }

  unfoldable pub renew :
      SessionManager K Sk → List ℕ → AuthorizedInfo K → Sk → Result (SessionManager K Sk)
  renew self sig auth_info key =
      try_write self.held (record self { session_of = new_session sig auth_info; key_of = key })

  unfoldable pub session_key : SessionManager K Sk → Result Sk
  session_key self = try_read self.held self.key_of

  unfoldable pub session : SessionManager K Sk → Result (Session K)
  session self = try_read self.held self.session_of

  -- `authorizer`
  unfoldable pub authorizer_did : SessionManager K Sk → Result Did
  unfolding session
  authorizer_did self = do s ← session self; ok (s.auth.authorizer.did)

  module _ (ks : KeySigner K Sk) where
    unfoldable pub sign : SessionManager K Sk → String → Result (List ℕ)
    unfolding session_key
    sign self msg = do key ← session_key self; ok (ks.sign_raw key msg)

    -- `gen_unsign_info`, with the key that `SecretKey::random` gives and the time
    unfoldable pub gen_unsign_info :
        Sk → ℕ → Did → Option Ttl → Option Signer → AuthorizedInfo K × Sk
    gen_unsign_info key now did ttl signer = (
      record {
        authorizer = record { did = did; pubkey = none };
        signer = unwrap_or signer default_signer;
        ttl_ms = unwrap_or ttl (some_ms default_session_ttl_ms);
        ts_ms = now;
        session_id = ks.address key;
      },
      key,
    )

    unfoldable pub gen_unsign_info_with_pubkey :
        Sk → ℕ → Option Ttl → Option Signer → K → AuthorizedInfo K × Sk
    gen_unsign_info_with_pubkey key now ttl signer pubkey = (
      record {
        authorizer = record { did = ks.pubkey_address pubkey; pubkey = some pubkey };
        signer = unwrap_or signer default_signer;
        ttl_ms = unwrap_or ttl (some_ms default_session_ttl_ms);
        ts_ms = now;
        session_id = ks.address key;
      },
      key,
    )

    unfoldable pub gen_unsign_info_with_ed25519_pubkey :
        Sk → ℕ → Option Ttl → K → AuthorizedInfo K × Sk
    unfolding gen_unsign_info_with_pubkey
    gen_unsign_info_with_ed25519_pubkey key now ttl pubkey =
        gen_unsign_info_with_pubkey key now ttl (some ed_dsa) pubkey

    unfoldable pub new_with_seckey :
        {T : Type 0} → Signers K T → Sk → ℕ → Sk → Option Ttl → Result (SessionManager K Sk)
    unfolding gen_unsign_info
    new_with_seckey sg random now key ttl = do
      let (auth, s_key) = gen_unsign_info random now (ks.address key) ttl none
      text ← ok_or (sg.print_auth auth) (err serialize_to_string)
      ok (new_manager (ks.sign_with key text) auth s_key)
