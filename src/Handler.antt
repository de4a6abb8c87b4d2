-- ===== src/Handler.antt =====
-- `MessageHandler` of rings-core/src/message/handlers/mod.rs: a payload is verified, validated, handled by
-- the handler of its message, shown to the callback, and counted. The callback and the validator are
-- code of the application: they may change the state of the swarm.
pub mod Connection
pub mod Lookup
pub mod Storage
pub mod Custom
pub mod Stabilization
pub mod Passes
pub mod Sound
pub mod Invariant
pub mod Hop
pub mod Leave
mod Examples
use rings_node.Base.{ℕ, Bool, true, false, Option, none, some, List, String, ◌==◌, if◌then◌else◌}
use rings_node.Error.{
  Error, Result, ok, err, panic, ◌>>=◌ as ◌>>=ᵣ◌, invalid_message,
  message_handler_unsupported_message_type,
}
use rings_node.Did.{Did}
use rings_node.Session.Manager.{SessionManager, session_key}
use rings_node.Message.{
  Message, Messages, nil, cons, MaybeEncrypted, multi_call, join_dht, leave_dht, connect_node_send,
  connect_node_report, already_connected, find_successor_send, find_successor_report,
  notify_predecessor_send, notify_predecessor_report, search_vnode, found_vnode, operate_vnode,
  sync_vnode_with_successor, custom_message,
}
use rings_node.Message.Cipher.{decrypt}
use rings_node.Payload.{MessagePayload, verify}
use rings_node.Payload.New.{new_payload, stick}
use rings_node.Act.{Act, pure, raise, lift, gets, modify, is_ok, done, bound, ◌>>=◌}
use rings_node.Swarm.{Swarm, Env, Event, did, received, failed_to_receive, fresh}
use rings_node.Swarm.Send.{count}
use rings_node.Swarm.Events.{poll_message}
use rings_node.Handler.Connection.{
  handle_leave_dht, handle_join_dht, handle_connect_node_send, handle_connect_node_report,
  handle_already_connected,
}
use rings_node.Handler.Lookup.{
  handle_find_successor_send, handle_find_successor_report, handle_notify_predecessor_send,
  handle_notify_predecessor_report,
}
use rings_node.Handler.Storage.{handle_search_vnode, handle_found_vnode, handle_operate_vnode}
use rings_node.Handler.Custom.{handle_custom_message}

-- `MessageCallback`
pub record MessageCallback (K Sk S C W : Type 0) : Type 0 where
  pub on_custom :
      MessagePayload K Message → MaybeEncrypted (List ℕ) → Swarm K Sk S C W → Swarm K Sk S C W
  pub on_builtin : MessagePayload K Message → Swarm K Sk S C W → Swarm K Sk S C W

-- `callback` and `validator`; the swarm is the state of the methods.
pub record MessageHandler (K Sk S C W : Type 0) : Type 0 where
  pub callback : Option (MessageCallback K Sk S C W)
  pub validator :
      Option (MessagePayload K Message → Swarm K Sk S C W → Option String × Swarm K Sk S C W)

module _ {K Sk S C W : Type 0} where
  -- What the callback does with a payload.
  unfoldable pub called_back :
      MessageCallback K Sk S C W
      → MessagePayload K Message
      → Message
      → Swarm K Sk S C W
      → Swarm K Sk S C W
  called_back cb payload (custom_message msg) self =
      if self.dht.did == payload.relay.destination then cb.on_custom payload msg self else self
  called_back cb payload _ self = cb.on_builtin payload self

  unfoldable pub invoke_callback :
      MessageHandler K Sk S C W → MessagePayload K Message → Act (Swarm K Sk S C W) (Unit {0})
  unfolding called_back
  invoke_callback handler payload = elim handler.callback [
    | none ↦ done
    | some cb ↦ modify (called_back cb payload payload.content)
  ]

  abbrev pub verdict : Option String × Swarm K Sk S C W → Result (Unit {0}) × Swarm K Sk S C W
  verdict (some _, self) = (err invalid_message, self)
  verdict (none, self) = (ok tt, self)

  unfoldable pub validate :
      MessageHandler K Sk S C W → MessagePayload K Message → Act (Swarm K Sk S C W) (Unit {0})
  validate handler payload = elim handler.validator [
    | none ↦ done
    | some v ↦ λ self. verdict (v payload self)
  ]

module _ {K Sk S C W : Type 0} (env : Env K Sk S C W) where
  unfoldable pub decrypt_msg : MaybeEncrypted (List ℕ) → Swarm K Sk S C W → Result (List ℕ)
  decrypt_msg msg self = session_key self.session_manager >>=ᵣ λ key.
      decrypt env.cipher msg key >>=ᵣ λ decrypted. ok decrypted.0

  -- `MessagePayload::new` for a message of a `MultiCall`
  abbrev pub unpacked :
      MessagePayload K Message → Message → Act (Swarm K Sk S C W) (MessagePayload K Message)
  unpacked payload message = fresh env.rtc λ self now id.
      new_payload env.signers env.key_signer now id message self.session_manager
        (stick payload.origin_verification) payload.relay

  module _ (handler : MessageHandler K Sk S C W) where
    -- `handle_message`, before and after the handler of the message
    abbrev pub around :
        MessagePayload K Message
        → Act (Swarm K Sk S C W) (Unit {0})
        → Act (Swarm K Sk S C W) (Unit {0})
    around payload handled = do
      _ ← validate handler payload
      _ ← handled
      invoke_callback handler payload

    -- The message of `payload`, and the loop over the messages of a `MultiCall`: an error of one of
    -- them does not stop the others.
    unfoldable mutual
      pub handle_as : Message → MessagePayload K Message → Act (Swarm K Sk S C W) (Unit {0})
      handle_as (join_dht d) payload = around payload (handle_join_dht env payload d)
      handle_as (leave_dht d) payload = around payload (handle_leave_dht env payload d)
      handle_as (connect_node_send id info) payload =
          around payload (handle_connect_node_send env payload id info)
      handle_as (connect_node_report id info) payload =
          around payload (handle_connect_node_report env payload id info)
      handle_as already_connected payload = around payload (handle_already_connected env payload)
      handle_as (find_successor_send d strict then_) payload =
          around payload (handle_find_successor_send env payload d strict then_)
      handle_as (find_successor_report d h) payload =
          around payload (handle_find_successor_report env payload d h)
      handle_as (notify_predecessor_send d) payload =
          around payload (handle_notify_predecessor_send env payload d)
      handle_as (notify_predecessor_report d) payload =
          around payload (handle_notify_predecessor_report env payload d)
      handle_as (search_vnode vid) payload = around payload (handle_search_vnode env payload vid)
      handle_as (found_vnode l) payload = around payload (handle_found_vnode env payload l)
      handle_as (operate_vnode op) payload = around payload (handle_operate_vnode env payload op)
      handle_as (custom_message _) payload = around payload (handle_custom_message env payload)
      handle_as (multi_call l) payload = around payload (handle_all l payload)
      handle_as (sync_vnode_with_successor _) payload =
          around payload (raise message_handler_unsupported_message_type)

      pub handle_all : Messages → MessagePayload K Message → Act (Swarm K Sk S C W) (Unit {0})
      handle_all nil payload = done
      handle_all (cons message l) payload = do
        inner ← unpacked payload message
        _ ← is_ok (handle_as message inner)
        handle_all l payload

    unfoldable pub handle_message : MessagePayload K Message → Act (Swarm K Sk S C W) (Unit {0})
    handle_message payload = handle_as payload.content payload

    abbrev pub handled :
        Did → Result (Unit {0}) × Swarm K Sk S C W → Result (Option (Unit {0})) × Swarm K Sk S C W
    handled addr (ok _, self) = (ok (some tt), count env addr received self)
    handled addr (err _, self) = (ok none, count env addr failed_to_receive self)
    handled addr (panic, self) = (panic, self)

    unfoldable pub handle_payload :
        MessagePayload K Message → Act (Swarm K Sk S C W) (Option (Unit {0}))
    unfolding handle_message
    handle_payload payload self =
        if verify env.signers (env.rtc.now self.world) payload
        then handled payload.addr (handle_message payload self)
        else (ok none, self)

    -- `listen_once`, with the event that the channel gives
    unfoldable pub listen_once :
        Result (Option Event) → Act (Swarm K Sk S C W) (Option (MessagePayload K Message))
    unfolding handle_payload
    listen_once ev = do
      polled ← poll_message env ev
      elim polled [
        | none ↦ pure none
        | some payload ↦ do
          outcome ← handle_payload payload
          elim outcome [ none ↦ pure none | some _ ↦ pure (some payload) ]
      ]
