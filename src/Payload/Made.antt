-- ===== src/Payload/Made.antt =====
-- What a node makes with its session verifies at any other node.
use rings_node.Base.{
  ℕ, ◌+◌, ◌^◌, ◌≤◌, ◌<◌, ◌≡◌, ◌≢◌, ◌⊎◌, inl, inr, refl, ap, ◌∙◌, subst, true, false, Option, none,
  some, String, arith,
}
use rings_node.Error.{
  err≢ok, panic≢ok, Error, ok, err, >>=_steps, Result-cases, ok-inj, serialize_to_string,
}
use rings_node.Did.{Did}
use rings_node.Relay.{MessageRelay}
use rings_node.Session.{
  Signer, default_signer, AuthorizedInfo, Ttl, some_ms, never, Session, MessageVerification,
  Signers, ok_or, pack_msg, verify_message, signed, signed_if, delegated_did, both_ok,
}
use rings_node.Session
use rings_node.Session.Manager.{
  KeySigner, SessionManager, new_manager, new_session, new_with_seckey, gen_unsign_info, session,
  session_key, sign, authorizer_did, Holder, nobody, reader, writer,
}
use rings_node.Payload.{MessagePayload, verify, is_expired, is_over}
use rings_node.Payload.New.{
  new_payload, from_origin, default_ttl_ms, OriginVerificationGen, stick, origin_or,
}

-- Signatures of a key verify under its address, and of a key of a session.
pub record IsSigner {K Sk T : Type 0} (sg : Signers K T) (ks : KeySigner K Sk) : Type 0 where
  pub sign_with_ok :
      (k : Sk) (s : String) → sg.verify_default s (ks.address k) (ks.sign_with k s) ≡ true
  pub sign_raw_ok :
      (k : Sk) (s : String) → sg.verify_default s (ks.address k) (ks.sign_raw k s) ≡ true

Holder-cases : (h : Holder) → (h ≡ nobody) ⊎ (h ≡ reader) ⊎ (h ≡ writer)
Holder-cases nobody = inl refl
Holder-cases reader = inr (inl refl)
Holder-cases writer = inr (inr refl)

ok_or-some {ℓ} :
    {A : Type ℓ} (o : Option A) (x : Error) (a : A) → ok_or o (err x) ≡ ok a → o ≡ some a
ok_or-some none x a e = cc
ok_or-some (some b) x a e = ap some (ok-inj e)

-- Whether or not the other verification is over: `is_expired` is false.
alive-lem :
    {K T : Type 0} (p : MessagePayload K T) (later : ℕ)
    → p.verification.ts_ms + p.verification.ttl_ms < 2 ^ 128
    → later ≤ p.verification.ts_ms + p.verification.ttl_ms
    → is_expired later p ≡ false
unfolding is_expired
alive-lem p later w l =
    let fresh_ : is_over later p.verification.ts_ms p.verification.ttl_ms ≡ false = ground arith in
    rw fresh_ (ground arith)

module _ {K Sk T : Type 0} (sg : Signers K T) (ks : KeySigner K Sk) (law : IsSigner sg ks) where
  -- A session that a secret key signed for a new session key.
  record IsOwn (m : SessionManager K Sk) (later : ℕ) : Type 0 where
    authorized : Session.verify sg later m.session_of ≡ true
    keyed : m.session_of.auth.session_id ≡ ks.address m.key_of

  session-verifies :
      (did : Did) (pubkey : Option K) (ttl : Ttl) (t : ℕ) (id : Did) (key : Sk) (text : String)
      (later : ℕ)
      → let auth : AuthorizedInfo K = record {
        authorizer = record { did = did; pubkey = pubkey };
        signer = default_signer;
        ttl_ms = ttl;
        ts_ms = t;
        session_id = id;
      } in
        did ≡ ks.address key
        → sg.print_auth auth ≡ some text
        → Session.is_expired sg later (new_session (ks.sign_with key text) auth) ≡ false
        → Session.verify sg later (new_session (ks.sign_with key text) auth) ≡ true
  unfolding Session.verify signed
  session-verifies did pubkey ttl t id key text later e printed a =
      rw (a, printed) (rw e (law.sign_with_ok key text))

  new_with_seckey-IsOwn :
      (random : Sk) (t : ℕ) (key : Sk) (ttl : Option Ttl) (m : SessionManager K Sk) (later : ℕ)
      → new_with_seckey ks sg random t key ttl ≡ ok m
      → Session.is_expired sg later m.session_of ≡ false
      → IsOwn m later
  unfolding new_with_seckey gen_unsign_info Session.verify signed
  new_with_seckey-IsOwn random t key ttl m later e a =
      let auth = (gen_unsign_info ks random t (ks.address key) ttl none).0 in
      let (text, e1, q) = >>=_steps (ok_or (sg.print_auth auth) (err serialize_to_string)) _ e in
      let own = new_manager (ks.sign_with key text) auth random in
      let same : own ≡ m = ok-inj e1 in
      let printed : sg.print_auth auth ≡ some text = ok_or-some _ _ text q in
      subst (λ x. IsOwn x later) same
        record {
          authorized =
              session-verifies _ none _ t _ key text later refl printed (
                ap (λ (x : SessionManager K Sk). Session.is_expired sg later x.session_of) same
                ∙ a);
          keyed = refl;
        }

  -- One verification made with the session of `m`.
  made-verifies :
      (m : SessionManager K Sk) (later now : ℕ) (content : T) (msg : String)
      → IsOwn m later
      → pack_msg sg content now default_ttl_ms ≡ ok msg
      → verify_message sg later
          (record {
            session = m.session_of;
            ttl_ms = default_ttl_ms;
            ts_ms = now;
            sig = ks.sign_raw m.key_of msg;
          })
          content
        ≡ true
  unfolding verify_message delegated_did
  made-verifies m later now content msg own e =
      rw (own.authorized, e, own.keyed) (law.sign_raw_ok m.key_of msg)

module _ {K Sk T : Type 0} (sg : Signers K T) (ks : KeySigner K Sk) (m : SessionManager K Sk)
    (now tx_id : ℕ) (content : T) (gen : OriginVerificationGen K) (relay : MessageRelay) where
  abbrev pub own_verification : String → MessageVerification K
  own_verification msg = record {
    session = m.session_of;
    ttl_ms = default_ttl_ms;
    ts_ms = now;
    sig = ks.sign_raw m.key_of msg;
  }

  abbrev pub made_payload : String → MessagePayload K T
  made_payload msg = record {
    content = content;
    tx_id = tx_id;
    addr = m.session_of.auth.authorizer.did;
    verification = own_verification msg;
    origin_verification = origin_or gen (own_verification msg);
    relay = relay;
  }

  -- What `new` makes, where it succeeds.
  pub new_payload-eq :
      (p : MessagePayload K T)
      → new_payload sg ks now tx_id content m gen relay ≡ ok p
      → (msg : String) × (pack_msg sg content now default_ttl_ms ≡ ok msg) × (made_payload msg ≡ p)
  unfolding new_payload session sign session_key authorizer_did
  new_payload-eq p e = elim (Result-cases (pack_msg sg content now default_ttl_ms)) [
    | inl (msg, q) ↦ (
      msg,
      q,
      elim (Holder-cases m.held) [
        | inl h ↦ ok-inj (rw (q, h) at e)
        | inr (inl h) ↦ ok-inj (rw (q, h) at e)
        | inr (inr h) ↦ absurd (err≢ok (rw (q, h) at e))
      ],
    )
    | inr (inl (x, q)) ↦ absurd (err≢ok (rw q at e))
    | inr (inr q) ↦ absurd (panic≢ok (rw q at e))
  ]

pub origin≢stick : {K : Type 0} {ov : MessageVerification K} → from_origin ≢ stick ov
origin≢stick e = cc

origin_verifies :
    {K : Type 0} (P : MessageVerification K → Type 0) (v : MessageVerification K)
    (gen : OriginVerificationGen K)
    → ((ov : MessageVerification K) → gen ≡ stick ov → P ov)
    → P v
    → P (origin_or gen v)
origin_verifies P v from_origin h own = own
origin_verifies P v (stick ov) h own = h ov refl

-- A payload that a node makes, with a session that its own key signed, verifies as long as its lifetime and
-- the session last; if it carries the verification of an origin, that one has to hold for the same content.
pub new_payload-verify :
    {K Sk T : Type 0} (sg : Signers K T) (ks : KeySigner K Sk) (random key : Sk) (t : ℕ)
    (ttl : Option Ttl) (m : SessionManager K Sk) (now tx_id : ℕ) (content : T)
    (gen : OriginVerificationGen K) (relay : MessageRelay) (p : MessagePayload K T) (later : ℕ)
    → IsSigner sg ks
    → new_with_seckey ks sg random t key ttl ≡ ok m
    → new_payload sg ks now tx_id content m gen relay ≡ ok p
    → Session.is_expired sg later m.session_of ≡ false
    → now + default_ttl_ms < 2 ^ 128
    → later ≤ now + default_ttl_ms
    → ((ov : MessageVerification K) → gen ≡ stick ov → verify_message sg later ov content ≡ true)
    → verify sg later p ≡ true
unfolding verify
new_payload-verify sg ks random key t ttl m now tx_id content gen relay p later law made e alive
      fits soon origin =
    let (msg, packed, same) = new_payload-eq sg ks m now tx_id content gen relay p e in
    let own = new_with_seckey-IsOwn sg ks law random t key ttl m later made alive in
    let mine = made-verifies sg ks law m later now content msg own packed in
    let made_p = made_payload sg ks m now tx_id content gen relay msg in
    subst (λ x. verify sg later x ≡ true) same
      (rw (alive-lem made_p later fits soon, mine)
        (origin_verifies (λ v. verify_message sg later v content ≡ true) _ gen origin mine))
