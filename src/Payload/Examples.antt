-- ===== src/Payload/Examples.antt =====
-- The theorems on payloads: at one that a node makes, and at one whose origin allows itself more than the maximal lifetime.
use rings_node.Base.{ℕ, ◌≡◌, ◌≢◌, ◌==◌, ==_iff, arith, ◌↔◌, refl, true, none, [], ◌∷◌}
use rings_node.Relay.{method_send}
use rings_node.Session.{
  MessageVerification, is_expired as session_is_expired, signed, verify as verify_session,
  delegated_did, pack_msg, verify_message,
}
use rings_node.Session.Trust.{IsTrusted}
use rings_node.Session.Samples.{signers, verification}
use rings_node.Payload.{MessagePayload, verify, is_expired}
use rings_node.Session.Manager.{
  SessionManager, new_manager, new_with_seckey, gen_unsign_info, session, sign, session_key,
  authorizer_did,
}
use rings_node.Node.Samples.{key_signer}
use rings_node.Payload.New.{new_payload, from_origin, stick, default_ttl_ms}
use rings_node.Payload.Made.{IsSigner, new_payload-verify}
use rings_node.Payload.Verified.{IsOver, verify_lem}

abbrev long : MessageVerification ℕ
long = record verification { ttl_ms = 4000000 }

abbrev payload : MessagePayload ℕ ℕ
payload = record {
  content = 9;
  tx_id = 3;
  addr = 1;
  verification = verification;
  origin_verification = long;
  relay = record {
    method = method_send;
    path = 1 ∷ [];
    path_end_cursor = 0;
    next_hop = none;
    destination = 4;
  };
}

-- Both messages are old, the sessions still alive.
long_test : verify signers 5900 payload ≡ true
unfolding verify is_expired verify_message verify_session signed session_is_expired delegated_did
    pack_msg
long_test = refl

verify_lem_example : verify signers 5900 payload ≡ true ↔ (
    (IsOver 5900 verification × IsOver 5900 long → ⊥)
    × IsTrusted signers 5900 verification 9
    × IsTrusted signers 5900 long 9)
verify_lem_example = verify_lem signers 5900 payload

origin≢stick : {K : Type 0} {ov : MessageVerification K} → from_origin ≢ stick ov
origin≢stick e = cc

==_refl : (k : ℕ) → (k == k) ≡ true
==_refl k = (==_iff k k).1 refl

signs : IsSigner signers key_signer
signs = record { sign_with_ok = λ k s. ==_refl k; sign_raw_ok = λ k s. ==_refl k }

abbrev manager : SessionManager ℕ ℕ
manager = new_manager (7 ∷ []) (gen_unsign_info key_signer 8 5000 7 none none).0 8

abbrev own : MessageVerification ℕ
own = record { session = manager.session_of; ttl_ms = default_ttl_ms; ts_ms = 6000; sig = 8 ∷ [] }

abbrev made : MessagePayload ℕ ℕ
made = record payload { addr = 7; verification = own; origin_verification = own }

new_payload-verify_example : verify signers 200000 made ≡ true
unfolding new_with_seckey gen_unsign_info new_payload pack_msg session sign session_key
    authorizer_did session_is_expired
new_payload-verify_example =
    new_payload-verify signers key_signer 8 7 5000 none manager 6000 3 9 from_origin payload.relay
      made 200000 signs refl refl refl (omega arith) (omega arith) (λ ov e. absurd (origin≢stick e))
