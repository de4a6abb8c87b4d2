-- ===== src/Transport/Shakes.antt =====
-- A handshake that one transport gives is taken by another one.
mod Examples
use rings_node.Base.{
  ℕ, ◌+◌, ◌^◌, ◌≤◌, ◌<◌, ◌≡◌, ◌≢◌, refl, ap, sym, ◌∙◌, subst, true, false, Option, none, some,
  some-inj, List, [], ◌∷◌, String, if◌then◌else◌,
}
use rings_node.Error.{Result, ok, err, panic, ok-inj, err≢ok, panic≢ok, >>=_steps, ◌>>=◌ as ◌>>=ᵣ◌}
use rings_node.Did.{Did}
use rings_node.Session.{Signers, Ttl, ok_or, authorizer_pubkey}
use rings_node.Session
use rings_node.Session.Found.{ok_or-some}
use rings_node.Session.Manager.{
  SessionManager, KeySigner, new_with_seckey, gen_unsign_info, authorizer_did,
}
use rings_node.Payload.{MessagePayload, verify}
use rings_node.Payload.New.{new_send, new_payload, default_ttl_ms, from_origin}
use rings_node.Payload.Made.{
  IsSigner, new_payload-verify, new_payload-eq, made_payload, origin≢stick,
}
use rings_node.Encoder.{Base58, ReadsBack, decode_bytes, encode_bytes, decode_bytes-encode_bytes}
use rings_node.VNode.{Encoded}
use rings_node.Act.{Act, bound, ◌>>=◌}
use rings_node.Act.Gives.{bound_steps, through}
use rings_node.Swarm.{SdpType}
use rings_node.Transport.Peer.{IceCandidate, Webrtc, DefaultTransport}
use rings_node.Transport.Connection.{set_remote_description}
use rings_node.Transport.Handshake.{
  TricklePayload, handshake_of, get_handshake_info, register_payload, register_remote_info,
}
use rings_node.Transport.Accepts.{
  Taken, Taken-accepted, add_candidates-ok, keep_key-ok, keep_key-key,
}

module _ {K Sk Sdp Candidate W : Type 0} (rt : Webrtc Sdp Candidate W)
    (sg : Signers K TricklePayload) (ks : KeySigner K Sk) where
  -- What a payload of a handshake is.
  record IsShake (m : SessionManager K Sk) (later : ℕ) (p : MessagePayload K TricklePayload)
      : Type 0 where
    sdp : Sdp
    verifies : verify sg later p ≡ true
    described : rt.sdp_to_json sdp ≡ some p.content.sdp
    from_m : p.addr ≡ m.session_of.auth.authorizer.did
    by_m : p.origin_verification.session ≡ m.session_of

  describes :
      (s : DefaultTransport K Candidate W) (sdp : Sdp)
      → s.connection ≡ true
      → (rt.set_remote_desc s.world sdp).0 ≡ some tt
      → (s' : DefaultTransport K Candidate W) × (set_remote_description rt sdp s ≡ (ok tt, s'))
  unfolding set_remote_description
  describes s sdp c e = (record s { world = (rt.set_remote_desc s.world sdp).1 }, rw (c, e) refl)

  own_did :
      (random key : Sk) (t : ℕ) (ttl : Option Ttl) (m : SessionManager K Sk)
      → new_with_seckey ks sg random t key ttl ≡ ok m
      → m.session_of.auth.authorizer.did ≡ ks.address key
  unfolding new_with_seckey gen_unsign_info
  own_did random key t ttl m e =
      let (text, e1, q) =
        >>=_steps
          (ok_or (sg.print_auth (gen_unsign_info ks random t (ks.address key) ttl none).0) _) _ e in
      ap (λ (x : SessionManager K Sk). x.session_of.auth.authorizer.did) (sym (ok-inj e1))

  module _ (random key : Sk) (t : ℕ) (ttl : Option Ttl) (m : SessionManager K Sk)
      (now later tx_id : ℕ) (law : IsSigner sg ks)
      (made : new_with_seckey ks sg random t key ttl ≡ ok m)
      (alive : Session.is_expired sg later m.session_of ≡ false)
      (fits : now + default_ttl_ms < 2 ^ 128) (soon : later ≤ now + default_ttl_ms) where
    sent-IsShake :
        (sdp : Sdp) (text : String) (l : List IceCandidate) (did : Did)
        (p : MessagePayload K TricklePayload)
        → rt.sdp_to_json sdp ≡ some text
        → new_send sg ks now tx_id (record { sdp = text; candidates = l }) m did did ≡ ok p
        → IsShake m later p
    unfolding new_send
    sent-IsShake sdp text l did p printed e =
        let (from, e1, q) = >>=_steps (authorizer_did m) _ e in
        let (msg, _, same) = new_payload-eq sg ks m now tx_id _ from_origin _ p e1 in
        record {
          sdp = sdp;
          verifies =
              new_payload-verify sg ks random key t ttl m now tx_id _ from_origin _ p later law made
                e1 alive fits soon (λ ov o. absurd (origin≢stick o));
          described =
              printed ∙ ap (λ (x : MessagePayload K TricklePayload). some (x.content.sdp)) same;
          from_m = ap (λ (x : MessagePayload K TricklePayload). x.addr) (sym same);
          by_m =
              ap (λ (x : MessagePayload K TricklePayload). x.origin_verification.session)
                (sym same);
        }

    module _ (b58 : Base58) (to_bincode : MessagePayload K TricklePayload → Result (List ℕ)) where
      handshake_of-IsShake :
          (sdp : Sdp) (l : List IceCandidate) (info : Encoded)
          → handshake_of rt sg ks b58 to_bincode now tx_id m sdp l ≡ ok info
          → (p : MessagePayload K TricklePayload) × (bytes : List ℕ) × IsShake m later p
            × (to_bincode p ≡ ok bytes)
            × (encode_bytes b58 bytes ≡ ok info)
      unfolding handshake_of
      handshake_of-IsShake sdp [] info e = absurd (err≢ok e)
      handshake_of-IsShake sdp (c ∷ l) info e =
          let (text, e1, q1) = >>=_steps _ _ e in
          let (did, e2, q2) = >>=_steps (authorizer_did m) _ e1 in
          let (p, e3, q3) = >>=_steps _ _ e2 in
          let (bytes, e4, q4) = >>=_steps (to_bincode p) _ e3 in
          (
            p,
            bytes,
            sent-IsShake sdp text (c ∷ l) did p (ok_or-some _ _ text (λ b. panic≢ok) q1) q3,
            q4,
            e4,
          )

      get_handshake_info-IsShake :
          (kind : SdpType) (info : Encoded) (a a' : DefaultTransport K Candidate W)
          → get_handshake_info rt sg ks b58 to_bincode now tx_id m kind a ≡ (ok info, a')
          → (p : MessagePayload K TricklePayload) × (bytes : List ℕ) × IsShake m later p
            × (to_bincode p ≡ ok bytes)
            × (encode_bytes b58 bytes ≡ ok info)
      unfolding get_handshake_info
      get_handshake_info-IsShake kind info a a' e = through _ _ info a' e λ sdp s1 q1 e1.
          through _ _ info a' e1 λ gathered s2 q2 e2.
            through _ _ info a' e2 λ l s3 q3 e3. handshake_of-IsShake sdp l info (ap (λ x. x.0) e3)

      -- Over signatures that verify, base58, bincode and JSON that read back what they wrote: what `get_handshake_info`
      -- gives, with a session that the node's own key signed, `register_remote_info` of another transport that has a
      -- peer connection takes, as long as the lifetime of the payload and the session last, provided the library
      -- accepts the description and the recovery of the public key does not panic. The identifier that it gives is
      -- the address of the node's key, and a public key that is recovered is kept.
      pub handshake_registers :
          (from_bincode : List ℕ → Result (MessagePayload K TricklePayload)) (kind : SdpType)
          (info : Encoded) (a a' b : DefaultTransport K Candidate W)
          → ReadsBack b58
          → ((p : MessagePayload K TricklePayload) (bytes : List ℕ)
              → to_bincode p ≡ ok bytes
              → from_bincode bytes ≡ ok p)
          → ((sdp : Sdp) (text : String)
              → rt.sdp_to_json sdp ≡ some text
              → rt.sdp_from_json text ≡ some sdp)
          → get_handshake_info rt sg ks b58 to_bincode now tx_id m kind a ≡ (ok info, a')
          → b.connection ≡ true
          → ((sdp : Sdp) → (rt.set_remote_desc b.world sdp).0 ≡ some tt)
          → authorizer_pubkey sg m.session_of ≢ panic
          → (b' : DefaultTransport K Candidate W) × (register_remote_info rt sg b58 from_bincode
                later info b
              ≡ (ok (ks.address key), b'))
            × ((k : K) → authorizer_pubkey sg m.session_of ≡ ok k → b'.public_key ≡ some k)
      unfolding register_remote_info register_payload bound
      handshake_registers from_bincode kind info a a' b base read json e connected accepts calm =
          let (p, bytes, shake, coded, written) = get_handshake_info-IsShake kind info a a' e in
          let (s1, q1) = describes b shake.sdp connected (accepts shake.sdp) in
          let (s2, q2) = add_candidates-ok rt p.content.candidates s1 in
          let same : authorizer_pubkey sg m.session_of
              ≡ authorizer_pubkey sg p.origin_verification.session =
            ap (authorizer_pubkey sg) (sym shake.by_m) in
          let (b', q3) =
            keep_key-ok rt (authorizer_pubkey sg p.origin_verification.session) s2
              (λ q. calm (same ∙ q)) in
          let decoded : (decode_bytes b58 info >>=ᵣ from_bincode) ≡ ok p =
            rw (decode_bytes-encode_bytes b58 bytes info base written) (read p bytes coded) in
          let taken : Taken rt sg p (ks.address key) b b' = record {
            sdp = shake.sdp;
            described = s1;
            tried = s2;
            reads = json shake.sdp p.content.sdp shake.described;
            describes = q1;
            tries = q2;
            keeps = q3;
            gives_addr = sym (shake.from_m ∙ own_did random key t ttl m made);
          } in
          (
            b',
            rw (decoded, shake.verifies) (Taken-accepted rt sg p (ks.address key) b b' taken),
            λ k r. keep_key-key rt _ s2 b' k (sym same ∙ r) q3,
          )
