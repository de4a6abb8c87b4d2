-- ===== src/Payload/New.antt =====
-- The making of payloads in rings-core/src/message/payload.rs. `now` and `tx_id` are what `get_epoch_ms`
-- and `Uuid::new_v4` give.
use rings_node.Base.{ℕ, none, some, [], ◌∷◌}
use rings_node.Error.{Result, ok, ◌>>=◌}
use rings_node.Did.{Did}
use rings_node.Relay.{MessageRelay, method_send, new_relay, report}
use rings_node.Session.{MessageVerification, Signers, pack_msg}
use rings_node.Session.Manager.{SessionManager, KeySigner, session, sign, authorizer_did}
use rings_node.Payload.{MessagePayload}

-- `DEFAULT_TTL_MS`
abbrev pub default_ttl_ms : ℕ
default_ttl_ms = 300000

-- `Origin` and `Stick`
pub data OriginVerificationGen (K : Type 0) : Type 0 where
  from_origin : OriginVerificationGen K
  stick : MessageVerification K → OriginVerificationGen K

abbrev pub origin_or :
    {K : Type 0} → OriginVerificationGen K → MessageVerification K → MessageVerification K
origin_or from_origin v = v
origin_or (stick ov) v = ov

module _ {K Sk T : Type 0} (sg : Signers K T) (ks : KeySigner K Sk) (now tx_id : ℕ) where
  -- `MessagePayload::new`
  unfoldable pub new_payload :
      T → SessionManager K Sk → OriginVerificationGen K → MessageRelay → Result (MessagePayload K T)
  new_payload content session_manager origin_verification_gen relay = do
    msg ← pack_msg sg content now default_ttl_ms
    addr ← authorizer_did session_manager
    own ← session session_manager
    sig ← sign ks session_manager msg
    let verification : MessageVerification K = record {
      session = own;
      ttl_ms = default_ttl_ms;
      ts_ms = now;
      sig = sig;
    }
    ok (record {
      content = content;
      tx_id = tx_id;
      addr = addr;
      verification = verification;
      origin_verification = origin_or origin_verification_gen verification;
      relay = relay;
    })

  unfoldable pub new_send : T → SessionManager K Sk → Did → Did → Result (MessagePayload K T)
  new_send content session_manager next_hop destination = do
    from ← authorizer_did session_manager
    new_payload content session_manager from_origin
        (new_relay method_send (from ∷ []) none (some next_hop) destination)

  -- `new_report`, with the `tx_id` of the message that is answered
  unfoldable pub new_report :
      T → ℕ → SessionManager K Sk → MessageRelay → Result (MessagePayload K T)
  new_report content answered session_manager relay = do
    back ← report relay
    pl ← new_payload content session_manager from_origin back
    ok (record pl { tx_id = answered })

  -- The payload that `forward_payload` sends.
  unfoldable pub forwarded :
      MessagePayload K T → SessionManager K Sk → MessageRelay → Result (MessagePayload K T)
  forwarded payload session_manager relay = do
    new_pl ← new_payload payload.content session_manager (stick payload.origin_verification) relay
    ok (record new_pl { tx_id = payload.tx_id })
