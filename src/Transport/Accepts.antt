-- ===== src/Transport/Accepts.antt =====
-- What `register_remote_info` takes: the payloads that verify. The theorems on the handshake of two transports.
use rings_node.Base.{
  ℕ, ◌≡◌, ◌≢◌, refl, ap, sym, ◌∙◌, inl, inr, Bool, true, false, Bool-cases, Option, none, some,
  List, [], ◌∷◌, if◌then◌else◌,
}
use rings_node.Error.{
  Error, rtc_peer_connection_not_establish, rtc_peer_connection_add_ice_candidate_error, Result, ok,
  err, panic, ok-inj, err≢ok, ◌>>=◌ as ◌>>=ᵣ◌,
}
use rings_node.Did.{Did}
use rings_node.Session.{Signers, authorizer_pubkey}
use rings_node.Session.Found.{ok_or-some}
use rings_node.Payload.{MessagePayload, verify, is_expired}
use rings_node.Encoder.{Base58, decode_bytes}
use rings_node.VNode.{Encoded}
use rings_node.Act.{raise, bound, caught}
use rings_node.Act.Gives.{bound_steps, through}
use rings_node.Transport.Peer.{returned, call, IceCandidate, Webrtc, DefaultTransport}
use rings_node.Transport.Connection.{add_ice_candidate, set_remote_description}
use rings_node.Transport.Handshake.{
  TricklePayload, add_candidates, keep_key, accepted, register_payload, register_remote_info,
}

module _ {K Sdp Candidate W : Type 0} (rt : Webrtc Sdp Candidate W) where
  returned-goes_on :
      (x : Error) (s : DefaultTransport K Candidate W) (r : Option (Unit {0}) × W)
      → (returned x s r).0 ≢ panic
  returned-goes_on x s (none, w) q = cc
  returned-goes_on x s (some a, w) q = cc

  add_ice_candidate-goes_on :
      (c : IceCandidate) (s : DefaultTransport K Candidate W) → (add_ice_candidate rt c s).0 ≢ panic
  unfolding add_ice_candidate
  add_ice_candidate-goes_on c s = by_connection s.connection
    where
      err≢panic : {x : Error} → ◌≢◌ {A = Result (Unit {0})} (err x) panic
      err≢panic q = cc

      by_connection :
          (b : Bool)
          → (if b
              then call rtc_peer_connection_add_ice_candidate_error (λ w. rt.add_candidate w c) s
              else raise rtc_peer_connection_not_establish s).0
            ≢ panic
      by_connection true =
          returned-goes_on rtc_peer_connection_add_ice_candidate_error s
            (rt.add_candidate s.world c)
      by_connection false = err≢panic

  after-candidate :
      (l : List IceCandidate) (r : Result (Unit {0}) × DefaultTransport K Candidate W)
      → r.0 ≢ panic
      → ((s : DefaultTransport K Candidate W)
          → (s' : DefaultTransport K Candidate W) × (add_candidates rt l s ≡ (ok tt, s')))
      → (s' : DefaultTransport K Candidate W) × (bound (caught r) (λ _. add_candidates rt l)
          ≡ (ok tt, s'))
  unfolding bound
  after-candidate l (ok a, s1) h f = f s1
  after-candidate l (err x, s1) h f = f s1
  after-candidate l (panic, s1) h f = absurd (h refl)

  -- No candidate makes the registration fail.
  pub add_candidates-ok :
      (l : List IceCandidate) (s : DefaultTransport K Candidate W)
      → (s' : DefaultTransport K Candidate W) × (add_candidates rt l s ≡ (ok tt, s'))
  unfolding add_candidates
  add_candidates-ok [] s = (s, refl)
  add_candidates-ok (c ∷ l) s =
      after-candidate l (add_ice_candidate rt c s) (add_ice_candidate-goes_on c s)
        (add_candidates-ok l)

  pub keep_key-ok :
      (r : Result K) (s : DefaultTransport K Candidate W)
      → r ≢ panic
      → (s' : DefaultTransport K Candidate W) × (keep_key rt r s ≡ (ok tt, s'))
  keep_key-ok (ok key) s h = (record s { public_key = some key }, refl)
  keep_key-ok (err x) s h = (s, refl)
  keep_key-ok panic s h = absurd (h refl)

  pub keep_key-key :
      (r : Result K) (s s' : DefaultTransport K Candidate W) (key : K)
      → r ≡ ok key
      → keep_key rt r s ≡ (ok tt, s')
      → s'.public_key ≡ some key
  keep_key-key (ok key) s s' key' q e = ap (λ x. x.1.public_key) (sym e) ∙ ap some (ok-inj q)
  keep_key-key (err x) s s' key q e = cc
  keep_key-key panic s s' key q e = cc

  module _ (sg : Signers K TricklePayload) where
    -- The steps of a registration that succeeds.
    pub record Taken (p : MessagePayload K TricklePayload) (did : Did)
        (s s' : DefaultTransport K Candidate W) : Type 0 where
      pub sdp : Sdp
      pub described : DefaultTransport K Candidate W
      pub tried : DefaultTransport K Candidate W
      pub reads : rt.sdp_from_json p.content.sdp ≡ some sdp
      pub describes : set_remote_description rt sdp s ≡ (ok tt, described)
      pub tries : add_candidates rt p.content.candidates described ≡ (ok tt, tried)
      pub keeps :
          keep_key rt (authorizer_pubkey sg p.origin_verification.session) tried ≡ (ok tt, s')
      pub gives_addr : did ≡ p.addr

    accepted-Taken :
        (p : MessagePayload K TricklePayload) (did : Did) (s s' : DefaultTransport K Candidate W)
        → accepted rt sg p s ≡ (ok did, s')
        → Taken p did s s'
    unfolding accepted
    accepted-Taken p did s s' e = through _ _ did s' e λ sdp s0 q0 e0.
        through _ _ did s' e0 λ _ s1 q1 e1. through _ _ did s' e1 λ _ s2 q2 e2.
          through _ _ did s' e2 λ _ s3 q3 e3. record {
            sdp = sdp;
            described = s1;
            tried = s2;
            reads = ok_or-some _ _ sdp (λ b. err≢ok) (ap (λ x. x.0) q0);
            describes = ap (set_remote_description rt sdp) (ap (λ x. x.1) q0) ∙ q1;
            tries = q2;
            keeps = q3 ∙ ap (λ x. (ok tt, x.1)) e3;
            gives_addr = ok-inj (sym (ap (λ x. x.0) e3));
          }

    pub Taken-accepted :
        (p : MessagePayload K TricklePayload) (did : Did) (s s' : DefaultTransport K Candidate W)
        → Taken p did s s'
        → accepted rt sg p s ≡ (ok did, s')
    unfolding accepted bound
    Taken-accepted p did s s' t =
        rw (t.reads, t.describes, t.tries, t.keeps) (ap (λ a. (ok a, s')) (sym t.gives_addr))

    register_payload-accepted :
        (now : ℕ) (p : MessagePayload K TricklePayload) (did : Did)
        (s s' : DefaultTransport K Candidate W)
        → register_payload rt sg now p s ≡ (ok did, s')
        → (verify sg now p ≡ true) × (accepted rt sg p s ≡ (ok did, s'))
    unfolding register_payload
    register_payload-accepted now p did s s' e = elim (Bool-cases (verify sg now p)) [
      | inl v ↦ (v, rw (v, register_payload) at e)
      | inr v ↦ absurd (err≢ok (ap (λ x. x.0) (rw (v, register_payload) at e)))
    ]

    -- Where `register_remote_info` succeeds, the information was the code of a payload that verifies; the identifier
    -- that it gives is the `addr` of that payload, and if a key can be got from the session of the
    -- payload's origin, it is the public key that the transport keeps.
    pub register_remote_info_lem :
        (b58 : Base58) (from_bincode : List ℕ → Result (MessagePayload K TricklePayload)) (now : ℕ)
        (info : Encoded) (self self' : DefaultTransport K Candidate W) (did : Did)
        → register_remote_info rt sg b58 from_bincode now info self ≡ (ok did, self')
        → (p : MessagePayload K TricklePayload) × ((decode_bytes b58 info >>=ᵣ from_bincode) ≡ ok p)
          × (verify sg now p ≡ true)
          × (did ≡ p.addr)
          × ((key : K)
              → authorizer_pubkey sg p.origin_verification.session ≡ ok key
              → self'.public_key ≡ some key)
    unfolding register_remote_info
    register_remote_info_lem b58 from_bincode now info self self' did e =
        let (p, s, q, e1) = bound_steps _ _ did self' e in
        let (v, a) = register_payload-accepted now p did s self' e1 in
        let t = accepted-Taken p did s self' a in
        (p, ap (λ x. x.0) q, v, t.gives_addr, λ key k. keep_key-key _ t.tried self' key k t.keeps)

    -- Where a payload is registered, the same payload with any other address is registered as well, and leaves
    -- the same state, and the identifier given is that other address: it is under no signature.
    pub register_payload-any_addr :
        (now : ℕ) (p : MessagePayload K TricklePayload) (d did : Did)
        (self self' : DefaultTransport K Candidate W)
        → register_payload rt sg now p self ≡ (ok did, self')
        → register_payload rt sg now (record p { addr = d }) self ≡ (ok d, self')
    unfolding register_payload verify is_expired
    register_payload-any_addr now p d did self self' e =
        let (v, a) = register_payload-accepted now p did self self' e in
        let t = accepted-Taken p did self self' a in
        rw v (
          Taken-accepted (record p { addr = d }) d self self'
            record {
              sdp = t.sdp;
              described = t.described;
              tried = t.tried;
              reads = t.reads;
              describes = t.describes;
              tries = t.tries;
              keeps = t.keeps;
              gives_addr = refl;
            })
