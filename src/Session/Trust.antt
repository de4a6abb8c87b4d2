-- ===== src/Session/Trust.antt =====
-- The chain of trust of a message: account, session, message.
use rings_node.Base.{
  ℕ, ◌+◌, ◌%◌, ◌^◌, ◌≤◌, ◌≡◌, ◌↔◌, refl, true, false, false≢true, Option, none, some, List, String,
  Bool-cases, Option-cases, some-inj, inl, inr, arith,
}
use rings_node.Did.{Did}
use rings_node.Session.{
  Signer, default_signer, eip191, ed_dsa, Ttl, some_ms, never, Session, MessageVerification,
  Signers, authorizer_pubkey, is_expired, signed, verify, delegated_did, pack_msg, verify_message,
}

-- A session of this lifetime that was made at `ts_ms` is alive: forever, or to the end of its lifetime.
abbrev pub IsAlive : ℕ → ℕ → Ttl → Type 0
IsAlive now ts_ms (some_ms ttl_ms) = now ≤ (ts_ms + ttl_ms) % 2 ^ 128
IsAlive now ts_ms never = Unit

module _ {K T : Type 0} (sg : Signers K T) where
  -- The scheme of the signer accepts the signature of the text under the authorizer's identifier. For
  -- ed25519 there has to be a public key, under which it does.
  abbrev pub IsSignedBy : Signer → String → Did → Option K → List ℕ → Type 0
  IsSignedBy default_signer text did pubkey sig = sg.verify_default text did sig ≡ true
  IsSignedBy eip191 text did pubkey sig = sg.verify_eip191 text did sig ≡ true
  IsSignedBy ed_dsa text did pubkey sig =
      (k : K) × (pubkey ≡ some k) × (sg.verify_ed25519 text did sig k ≡ true)

  -- The session is alive, and its authorizer has signed what it says.
  abbrev pub IsDelegated : ℕ → Session K → Type 0
  IsDelegated now s =
      IsAlive now s.auth.ts_ms s.auth.ttl_ms
      × ((auth_str : String) × (sg.print_auth s.auth ≡ some auth_str)
          × IsSignedBy s.auth.signer auth_str s.auth.authorizer.did s.auth.authorizer.pubkey s.sig)

  -- And the key of the session has signed the message with its times.
  abbrev pub IsTrusted : ℕ → MessageVerification K → T → Type 0
  IsTrusted now v content =
      IsDelegated now v.session
      × ((msg : String) × (sg.print content ≡ some msg)
          × (sg.verify_default (sg.pack msg v.ts_ms v.ttl_ms) v.session.auth.session_id v.sig
              ≡ true))

  abbrev session_of : List ℕ → Did → Option K → Signer → Ttl → ℕ → Did → Session K
  session_of sig did pubkey signer ttl_ms ts_ms id = record {
    sig = sig;
    auth = record {
      authorizer = record { did = did; pubkey = pubkey };
      signer = signer;
      ttl_ms = ttl_ms;
      ts_ms = ts_ms;
      session_id = id;
    };
  }

  IsAlive-iff :
      (now : ℕ) (sig : List ℕ) (did : Did) (pubkey : Option K) (signer : Signer) (ttl : Ttl)
      (ts : ℕ) (id : Did)
      → is_expired sg now (session_of sig did pubkey signer ttl ts id) ≡ false ↔ IsAlive now ts ttl
  unfolding is_expired
  IsAlive-iff now sig did pubkey signer (some_ms ttl) ts id = (λ h. ground arith, λ h. ground arith)
  IsAlive-iff now sig did pubkey signer never ts id = (λ h. tt, λ h. refl)

  signed_iff :
      (sig : List ℕ) (did : Did) (pubkey : Option K) (signer : Signer) (ttl : Ttl) (ts : ℕ)
      (id : Did) (text : String)
      → sg.print_auth (session_of sig did pubkey signer ttl ts id).auth ≡ some text
      → signed sg (session_of sig did pubkey signer ttl ts id) text ≡ true
        ↔ IsSignedBy signer text did pubkey sig
  unfolding signed authorizer_pubkey
  signed_iff sig did pubkey default_signer ttl ts id text p = (λ h. h, λ h. h)
  signed_iff sig did pubkey eip191 ttl ts id text p = (λ h. h, λ h. h)
  signed_iff sig did none ed_dsa ttl ts id text p =
      (λ h. absurd (false≢true (rw (signed, authorizer_pubkey, p) at h)), λ (k, e, h). cc)
  signed_iff sig did (some k) ed_dsa ttl ts id text p = (
    λ h. (k, refl, rw (signed, authorizer_pubkey, p) at h),
    λ (k', e, h). rw (signed, authorizer_pubkey, p, some-inj e) h,
  )

  verify-IsDelegated : (now : ℕ) (s : Session K) → verify sg now s ≡ true ↔ IsDelegated now s
  unfolding verify
  verify-IsDelegated now s =
      let a = s.auth in
      let alive =
        IsAlive-iff now s.sig a.authorizer.did a.authorizer.pubkey a.signer a.ttl_ms a.ts_ms
          a.session_id in
      let sign =
        signed_iff s.sig a.authorizer.did a.authorizer.pubkey a.signer a.ttl_ms a.ts_ms
          a.session_id in
      (
        λ h. elim (Bool-cases (is_expired sg now s)) [
          | inl e ↦ absurd (false≢true (rw (e, verify) at h))
          | inr e ↦ elim (Option-cases (sg.print_auth s.auth)) [
            | inl q ↦ absurd (false≢true (rw (e, q, verify) at h))
            | inr (auth_str, q) ↦
                (alive.0 e, (auth_str, q, (sign auth_str q).0 (rw (e, q, verify) at h)))
          ]
        ],
        λ d. let (e, (auth_str, q, g)) = d in rw (alive.1 e, q) ((sign auth_str q).1 g),
      )

  -- A message verifies exactly if its session is alive (it has no end, or its end is not past), the
  -- scheme that the session names accepts the authorizer's signature of the session (for ed25519, under
  -- the public key that the session carries), and the key of the session has signed the message with its
  -- times.
  pub verify_message-IsTrusted :
      (now : ℕ) (v : MessageVerification K) (content : T)
      → verify_message sg now v content ≡ true ↔ IsTrusted now v content
  unfolding verify_message delegated_did pack_msg
  verify_message-IsTrusted now v content = (
    λ h. elim (Bool-cases (verify sg now v.session)) [
      | inr e ↦ absurd (false≢true (rw (e, verify_message) at h))
      | inl e ↦ elim (Option-cases (sg.print content)) [
        | inl q ↦ absurd (false≢true (rw (e, q, verify_message, delegated_did, pack_msg) at h))
        | inr (msg, q) ↦ (
          (verify-IsDelegated now v.session).0 e,
          (msg, q, rw (e, q, verify_message, delegated_did, pack_msg) at h),
        )
      ]
    ],
    λ t. let (d, (msg, q, g)) = t in rw ((verify-IsDelegated now v.session).1 d, q) g,
  )
