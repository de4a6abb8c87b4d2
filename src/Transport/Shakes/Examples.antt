-- ===== src/Transport/Shakes/Examples.antt =====
-- The theorems on the handshake, at a node that offers one and at another one that takes it.
use rings_node.Base.{
  ℕ, suc, String, List, [], ◌∷◌, ◌≡◌, ◌≢◌, refl, ap, true, Bool-cases, ◌==◌ as ◌==ℕ◌, ==_iff,
  Option, none, some, inl, inr, sym, ◌∙◌, false≢true, arith,
}
use native.Mathlib.Decide.{ℕ_discrete}
use text.Mathlib.TextEquality.{eq_iff}
use text.Mathlib.Text.{◌==◌}
use rings_node.Error.{Result, ok, err, panic, encode, ◌>>=◌, err≢ok}
use rings_node.Relay.{method_send}
use rings_node.Session.{
  MessageVerification, authorizer_pubkey, verify_message, verify as verify_session, signed,
  delegated_did, pack_msg, is_expired as session_is_expired,
}
use rings_node.Session.Manager.{
  SessionManager, new_manager, new_with_seckey, gen_unsign_info, session, sign, session_key,
  authorizer_did,
}
use rings_node.Node.Samples.{signers, key_signer}
use rings_node.Payload.{MessagePayload, verify, is_expired}
use rings_node.Payload.New.{new_send, new_payload, default_ttl_ms}
use rings_node.Payload.Made.{IsSigner}
use rings_node.Encoder.{Base58, ReadsBack, encode_bytes, decode_bytes}
use rings_node.Act.{bound}
use rings_node.Swarm.{offer, connected}
use rings_node.Transport.Peer.{
  IceCandidate, Webrtc, DefaultTransport, on_ice_candidates, on_ice_candidate,
}
use rings_node.Transport.Connection.{
  get_offer, set_local_description, gather_complete, set_remote_description, add_ice_candidate,
}
use rings_node.Transport.Handshake.{
  TricklePayload, handshake_of, get_handshake_info, register_payload, register_remote_info,
  accepted, add_candidates,
}
use rings_node.Transport.Accepts.{register_remote_info_lem, register_payload-any_addr}
use rings_node.Transport.Shakes.{handshake_registers}

abbrev local_candidate : IceCandidate
local_candidate = record {
  candidate = "udp";
  sdp_mid = none;
  sdp_m_line_index = some 0;
  username_fragment = none;
}

-- A library that does what it is told, with texts for descriptions; the state counts its calls.
abbrev rt : Webrtc String IceCandidate ℕ
rt = record {
  new_peer_connection = λ w. (some tt, suc w);
  create_data_channel = λ w. (some tt, suc w);
  create_offer = λ w. (some "sdp", suc w);
  create_answer = λ w. (some "sdp", suc w);
  set_local_desc = λ w sdp. (some tt, suc w);
  set_remote_desc = λ w sdp. (some tt, suc w);
  add_candidate = λ w c. (none, suc w);
  gather = λ w. (local_candidate ∷ [], suc w);
  close_connection = λ w. (some tt, suc w);
  connection_state = λ w. connected;
  is_open = λ w. true;
  wait_open = λ w. (ok tt, suc w);
  candidate_to_json = λ c. some c;
  sdp_to_json = λ sdp. some sdp;
  sdp_from_json = λ s. some s;
}

abbrev transport : List IceCandidate → Option ℕ → ℕ → DefaultTransport ℕ IceCandidate ℕ
transport candidates key world = record {
  id = 1;
  connection = true;
  pending_candidates = candidates;
  data_channel = true;
  public_key = key;
  chunk_list = [];
  events = [];
  world = world;
}

abbrev manager : SessionManager ℕ ℕ
manager = new_manager (7 ∷ []) (gen_unsign_info key_signer 8 5000 7 none none).0 8

abbrev own : MessageVerification ℕ
own = record { session = manager.session_of; ttl_ms = default_ttl_ms; ts_ms = 6000; sig = 8 ∷ [] }

abbrev shake : MessagePayload ℕ TricklePayload
shake = record {
  content = record { sdp = "sdp"; candidates = local_candidate ∷ [] };
  tx_id = 3;
  addr = 7;
  verification = own;
  origin_verification = own;
  relay = record {
    method = method_send;
    path = 7 ∷ [];
    path_end_cursor = 0;
    next_hop = some 7;
    destination = 7;
  };
}

string_discrete : Discrete String
string_discrete s t = elim (Bool-cases (s == t)) [
  | inl e ↦ yes ((eq_iff s t).0 e)
  | inr e ↦ no (λ q. false≢true (sym e ∙ (eq_iff s t).1 q))
]

payload_discrete : Discrete (MessagePayload ℕ TricklePayload)
payload_discrete = hlevel (ℕ_discrete, string_discrete)

-- A coding of this payload only.
abbrev coded : {A : Type 0} → Dec A → Result (List ℕ)
coded (yes _) = ok []
coded (no _) = err encode

abbrev to_bincode : MessagePayload ℕ TricklePayload → Result (List ℕ)
to_bincode p = coded (payload_discrete p shake)

abbrev from_bincode : List ℕ → Result (MessagePayload ℕ TricklePayload)
from_bincode bytes = ok shake

coded-yes : {A : Type 0} (d : Dec A) → A → coded d ≡ ok []
coded-yes (yes _) a = refl
coded-yes (no n) a = absurd (n a)

coded-holds : {A : Type 0} (d : Dec A) (bytes : List ℕ) → coded d ≡ ok bytes → A
coded-holds (yes a) bytes e = a
coded-holds (no n) bytes e = absurd (err≢ok e)

read :
    (p : MessagePayload ℕ TricklePayload) (bytes : List ℕ)
    → to_bincode p ≡ ok bytes
    → from_bincode bytes ≡ ok p
read p bytes e = ap ok (sym (coded-holds (payload_discrete p shake) bytes e))

abbrev code_text : List ℕ → Option String
code_text [] = some "info"
code_text (_ ∷ _) = none

abbrev b58 : Base58
b58 = record {
  encode_check = code_text;
  decode_check = λ s. some [];
  as_bytes = λ s. [];
  from_utf8 = λ bytes. some "";
}

base : ReadsBack b58
base [] s e = refl
base (x ∷ bytes) s e = cc

offer_test :
    get_handshake_info rt signers key_signer b58 to_bincode 6000 3 manager offer
      (transport [] none 0)
    ≡ (ok "info", transport (local_candidate ∷ []) none 3)
unfolding get_handshake_info get_offer set_local_description gather_complete on_ice_candidates
    on_ice_candidate bound handshake_of authorizer_did session new_send new_payload pack_msg sign
    session_key encode_bytes gen_unsign_info
offer_test = rw (coded-yes (payload_discrete shake shake) refl) refl

==_refl : (k : ℕ) → (k ==ℕ k) ≡ true
==_refl k = (==_iff k k).1 refl

signs : {T : Type 0} → IsSigner {T = T} signers key_signer
signs = record { sign_with_ok = λ k s. ==_refl k; sign_raw_ok = λ k s. ==_refl k }

ok≢panic : {k : ℕ} → ok k ≢ panic
ok≢panic e = cc

handshake_registers_example :
    (b' : DefaultTransport ℕ IceCandidate ℕ) × (register_remote_info rt signers b58 from_bincode
        200000 "info"
        (transport [] none 5)
      ≡ (ok 7, b'))
    × ((k : ℕ)
        → authorizer_pubkey (signers {T = TricklePayload}) manager.session_of ≡ ok k
        → b'.public_key ≡ some k)
unfolding new_with_seckey gen_unsign_info session_is_expired authorizer_pubkey
handshake_registers_example =
    handshake_registers rt signers key_signer 8 7 5000 none manager 6000 200000 3 signs refl refl
      (omega arith) (omega arith) b58 to_bincode from_bincode offer "info" (transport [] none 0)
      (transport (local_candidate ∷ []) none 3) (transport [] none 5) base read
      (λ sdp text e. sym e) offer_test refl (λ sdp. refl) ok≢panic

payload_test :
    register_payload rt signers 200000 shake (transport [] none 5) ≡ (ok 7, transport [] (some 1) 7)
unfolding register_payload accepted set_remote_description add_candidates add_ice_candidate bound
    verify gen_unsign_info authorizer_pubkey is_expired verify_message verify_session
    session_is_expired signed delegated_did pack_msg
payload_test = refl

registered_test :
    register_remote_info rt signers b58 from_bincode 200000 "info" (transport [] none 5)
    ≡ (ok 7, transport [] (some 1) 7)
unfolding register_remote_info decode_bytes bound
registered_test = payload_test

register_remote_info_lem_example :
    (p : MessagePayload ℕ TricklePayload) × ((decode_bytes b58 "info" >>= from_bincode) ≡ ok p)
    × (verify signers 200000 p ≡ true)
    × (7 ≡ p.addr)
    × ((key : ℕ)
        → authorizer_pubkey (signers {T = TricklePayload}) p.origin_verification.session ≡ ok key
        → some 1 ≡ some key)
register_remote_info_lem_example =
    register_remote_info_lem rt signers b58 from_bincode 200000 "info" (transport [] none 5)
      (transport [] (some 1) 7) 7 registered_test

register_payload-any_addr_example :
    register_payload rt signers 200000 (record shake { addr = 99 }) (transport [] none 5)
    ≡ (ok 99, transport [] (some 1) 7)
register_payload-any_addr_example =
    register_payload-any_addr rt signers 200000 shake 99 7 (transport [] none 5)
      (transport [] (some 1) 7) payload_test
