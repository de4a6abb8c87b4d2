-- ===== src/Transport/Handshake.antt =====
-- The handshake of a transport: `get_handshake_info` and `register_remote_info` of
-- rings-core/src/transports/default/transport.rs. bincode is the functions `to_bincode` and `from_bincode`, parameters.
use rings_node.Base.{ℕ, some, List, [], ◌∷◌, String, if◌then◌else◌}
use rings_node.Error.{
  Result, ok, err, panic, ◌>>=◌ as ◌>>=ᵣ◌, collected, deserialize, verify_signature_failed,
  failed_on_gather_local_candidate,
}
use rings_node.Did.{Did}
use rings_node.VNode.{Encoded}
use rings_node.Session.{Signers, ok_or, authorizer_pubkey}
use rings_node.Session.Manager.{SessionManager, KeySigner, authorizer_did}
use rings_node.Payload.{MessagePayload, verify}
use rings_node.Payload.New.{new_send}
use rings_node.Encoder.{Base58, encode_bytes, decode_bytes}
use rings_node.Act.{Act, pure, raise, lift, gets, modify, is_ok, done, ◌>>=◌}
use rings_node.Swarm.{SdpType, offer, answer}
use rings_node.Transport.Peer.{IceCandidate, Webrtc, DefaultTransport}
use rings_node.Transport.Connection.{
  set_remote_description, add_ice_candidate, get_offer, get_answer,
}

-- `TricklePayload` of rings-core/src/transports/helper.rs
pub record TricklePayload : Type 0 where
  pub sdp : String
  pub candidates : List IceCandidate

module _ {K Sdp Candidate W : Type 0} (rt : Webrtc Sdp Candidate W) where
  -- An error of a candidate is left.
  unfoldable pub add_candidates :
      List IceCandidate → Act (DefaultTransport K Candidate W) (Unit {0})
  unfolding add_ice_candidate
  add_candidates [] = done
  add_candidates (c ∷ candidates) = do _ ← is_ok (add_ice_candidate rt c); add_candidates candidates

  -- An offer or an answer: no caller gives another kind.
  abbrev pub sdp_of : SdpType → Act (DefaultTransport K Candidate W) Sdp
  sdp_of answer = get_answer rt
  sdp_of offer = get_offer rt

  -- `if let Ok(public_key)`
  abbrev pub keep_key : Result K → Act (DefaultTransport K Candidate W) (Unit {0})
  keep_key (ok key) = modify (λ self. record self { public_key = some key })
  keep_key (err _) = done
  keep_key panic = lift panic

  module _ {Sk : Type 0} (sg : Signers K TricklePayload) (ks : KeySigner K Sk) (b58 : Base58)
      (to_bincode : MessagePayload K TricklePayload → Result (List ℕ)) where
    -- The payload and its code, from what was gathered
    unfoldable pub handshake_of :
        ℕ → ℕ → SessionManager K Sk → Sdp → List IceCandidate → Result Encoded
    handshake_of now tx_id session_manager sdp [] = err failed_on_gather_local_candidate
    handshake_of now tx_id session_manager sdp (c ∷ l) =
        ok_or (rt.sdp_to_json sdp) panic >>=ᵣ λ text.
        authorizer_did session_manager >>=ᵣ λ fake_did.
        new_send sg ks now tx_id (record { sdp = text; candidates = c ∷ l }) session_manager
          fake_did fake_did
        >>=ᵣ λ resp. to_bincode resp >>=ᵣ λ bytes. encode_bytes b58 bytes

    unfoldable pub get_handshake_info :
        ℕ → ℕ → SessionManager K Sk → SdpType → Act (DefaultTransport K Candidate W) Encoded
    unfolding get_offer get_answer handshake_of
    get_handshake_info now tx_id session_manager kind = do
      sdp ← sdp_of kind
      gathered ← gets (λ self. self.pending_candidates)
      local_candidates ← lift (collected (λ c. ok_or (rt.candidate_to_json c) panic) gathered)
      lift (handshake_of now tx_id session_manager sdp local_candidates)

  module _ (sg : Signers K TricklePayload) where
    -- What is done with a payload that verifies
    unfoldable pub accepted :
        MessagePayload K TricklePayload → Act (DefaultTransport K Candidate W) Did
    unfolding set_remote_description add_candidates
    accepted payload = do
      sdp ← lift (ok_or (rt.sdp_from_json payload.content.sdp) (err deserialize))
      _ ← set_remote_description rt sdp
      _ ← add_candidates payload.content.candidates
      _ ← keep_key (authorizer_pubkey sg payload.origin_verification.session)
      pure payload.addr

    unfoldable pub register_payload :
        ℕ → MessagePayload K TricklePayload → Act (DefaultTransport K Candidate W) Did
    unfolding accepted
    register_payload now payload =
        if verify sg now payload then accepted payload else raise verify_signature_failed

    unfoldable pub register_remote_info :
        Base58
        → (List ℕ → Result (MessagePayload K TricklePayload))
        → ℕ
        → Encoded
        → Act (DefaultTransport K Candidate W) Did
    unfolding register_payload
    register_remote_info b58 from_bincode now info = do
      payload ← lift (decode_bytes b58 info >>=ᵣ from_bincode)
      register_payload now payload
