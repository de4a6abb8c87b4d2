-- ===== src/Error.antt =====
-- The errors of rings-core/src/err.rs and of src/error.rs, which wraps them, that the modelled code
-- returns, and the outcome of a fallible
-- function: a value, an error, or a panic (an index out of range, `unwrap` of nothing). Errors keep
-- their constructors and drop what they carry for the message, except a wrapped error.
use rings_node.Base.{◌≡◌, ◌≢◌, refl, ◌⊎◌, inl, inr, List, [], ◌∷◌}

pub data Error : Type 0 where
  dht_sync_lock_error peer_ring_invalid_action peer_ring_unexpected_action : Error
  peer_ring_find_successor : Error → Error
  vnode_not_overwritable vnode_not_appendable vnode_not_joinable : Error
  vnode_kind_not_equal vnode_did_not_equal invalid_vnode_type : Error
  invalid_next_hop cannot_infer_next_hop report_need_send reset_destination_need_send : Error
  invalid_relay_path invalid_relay_destination infinite_relay_path : Error
  no_next_hop message_handler_miss_next_node : Error
  verify_signature_failed ed_dsa_public_key_not_found : Error
  message_handler_unsupported_message_type invalid_message invalid_transport_uuid : Error
  message_handler_miss_transport_already_connected : Error
  message_handler_miss_transport_connected_node : Error
  swarm_miss_did_in_table swarm_miss_transport swarm_pending_trans_try_lock_failed : Error
  swarm_pending_trans_not_found swarm_to_close_prev_transport swarm_build_failed : Error
  invalid_transport session_try_lock_failed unexpected_encrypted_data : Error
  bincode_serialize bincode_deserialize message_encryption_failed message_decryption_failed : Error
  message_too_large rtc_data_channel_not_ready rtc_data_channel_state_not_open : Error
  rtc_data_channel_send_text_failed rtc_data_channel_message_incomplete : Error
  ecdsa_public_key_bad_format eddsa_public_key_bad_format public_key_bad_format : Error
  libsecp256k1_signature_parse_standard libsecp256k1_recover_id_parse libsecp256k1_recover : Error
  invalid_public_key utf8_encoding try_from_slice sled_error http_request_error : Error
  rtc_peer_connection_not_establish rtc_peer_connection_create_failed : Error
  rtc_peer_connection_create_offer_failed rtc_peer_connection_create_answer_failed : Error
  rtc_peer_connection_set_local_desc_failed rtc_peer_connection_set_remote_desc_failed : Error
  rtc_peer_connection_add_ice_candidate_error rtc_peer_connection_close_failed : Error
  failed_on_gather_local_candidate : Error
  new_transport_error transport_not_found invalid_transport_id invalid_did internal_error : Error
  remote_rpc_error json_serialize_error json_deserialize_error serialize_error : Error
  invalid_method not_support_message invalid_data no_permission invalid_service : Error
  pending_transport close_transport_error register_ice_error create_offer_error : Error → Error
  create_answer_error connect_with_did_error send_message_error vnode_error : Error → Error
  service_register_error : Error → Error
  -- `ErrorCode::InvalidParams` of jsonrpc_core
  invalid_params : Error
  -- An error of the WebRTC library.
  external : Error
  bad_c_hex_in_cache decode encode serialize_to_string deserialize storage : Error

pub data Result {ℓ} (A : Type ℓ) : Type ℓ where
  ok : A → Result A
  err : Error → Result A
  panic : Result A

pub ok-inj {ℓ} : {A : Type ℓ} {a b : A} → ok a ≡ ok b → a ≡ b
ok-inj e = cc

pub err≢ok {ℓ} : {A : Type ℓ} {x : Error} {a : A} → err x ≢ ok a
err≢ok e = cc

pub panic≢ok {ℓ} : {A : Type ℓ} {a : A} → panic ≢ ok a
panic≢ok e = cc

infixl 5 ◌>>=◌
abbrev pub ◌>>=◌ {κ μ} :
    {Value : Type κ} {Next : Type μ} → Result Value → (Value → Result Next) → Result Next
panic >>= next = panic
err why >>= next = err why
ok value >>= next = next value

-- What a chain that succeeds went through.
pub >>=_steps {κ μ} :
    {Value : Type κ} {Next : Type μ} {z : Next} (m : Result Value) (next : Value → Result Next)
    → (m >>= next) ≡ ok z
    → (v : Value) × (next v ≡ ok z) × (m ≡ ok v)
>>=_steps panic next e = cc
>>=_steps (err why) next e = cc
>>=_steps (ok v) next e = (v, e, refl)

pub Result-cases {ℓ} :
    {A : Type ℓ} (r : Result A) → ((a : A) × (r ≡ ok a)) ⊎ ((e : Error) × (r ≡ err e)) ⊎ (r ≡ panic)
Result-cases (ok a) = inl (a, refl)
Result-cases (err e) = inr (inl (e, refl))
Result-cases panic = inr (inr refl)

-- The results of a function that may fail, up to the first failure.
abbrev pub collected {ℓ} : {A B : Type ℓ} → (A → Result B) → List A → Result (List B)
collected f [] = ok []
collected f (x ∷ xs) = f x >>= λ y. collected f xs >>= λ ys. ok (y ∷ ys)
