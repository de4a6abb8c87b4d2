-- ===== src/Handler/Invariant.antt =====
-- A node stays sound whatever payload it handles, whatever event arrives, and when it stabilizes.
use rings_node.Base.{ℕ, Option, none, some, List, String, ◌==◌, Bool-cases, inl, inr}
use rings_node.Error.{Result, ok, err, panic}
use rings_node.Did.{Did, IsDid}
use rings_node.Message.{
  Message, Messages, nil, cons, MaybeEncrypted, multi_call, join_dht, leave_dht, connect_node_send,
  connect_node_report, already_connected, find_successor_send, find_successor_report,
  notify_predecessor_send, notify_predecessor_report, search_vnode, found_vnode, operate_vnode,
  sync_vnode_with_successor, custom_message,
}
use rings_node.Payload.{MessagePayload, verify}
use rings_node.Act.{Act, modify, done}
use rings_node.Act.Keeps.{Keeps, keeps, after, bind-Keeps, is_ok-Keeps}
use rings_node.Swarm.{Swarm, Env}
use rings_node.Handler.{
  MessageCallback, MessageHandler, called_back, invoke_callback, verdict, validate, around,
  handle_as, handle_all, handle_message, handled, handle_payload,
}
use rings_node.Handler.Sound.{
  Sound, Same-Sound, disconnect-Sound, handle_join_dht-Sound, handle_find_successor_report-Sound,
  handle_notify_predecessor_send-Sound, handle_notify_predecessor_report-Sound,
  handle_found_vnode-Sound, handle_operate_vnode-Sound,
}
use rings_node.Handler.Passes.{
  handle_connect_node_send-Same, handle_connect_node_report-Same, handle_already_connected-Same,
  handle_find_successor_send-Same, handle_search_vnode-Same, handle_custom_message-Same,
}
use rings_node.Handler.Connection.{handle_leave_dht}

-- The nodes that a message asks to take up are identifiers: a `Did` is 20 bytes.
unfoldable mutual
  pub IsMessage : Message → Type 0
  IsMessage (join_dht d) = IsDid d
  IsMessage (find_successor_report d _) = IsDid d
  IsMessage (notify_predecessor_send d) = IsDid d
  IsMessage (notify_predecessor_report d) = IsDid d
  IsMessage (multi_call l) = AllMessages l
  IsMessage _ = Unit

  pub AllMessages : Messages → Type 0
  AllMessages nil = Unit
  AllMessages (cons m l) = IsMessage m × AllMessages l

-- The code of the application leaves a sound node sound.
module _ {K Sk S C W : Type 0} (own : Did) where
  abbrev pub IsCallback : Option (MessageCallback K Sk S C W) → Type 0
  IsCallback none = Unit
  IsCallback (some cb) =
      ((payload : MessagePayload K Message) (msg : MaybeEncrypted (List ℕ)) (s : Swarm K Sk S C W)
        → Sound own s
        → Sound own (cb.on_custom payload msg s))
      × ((payload : MessagePayload K Message) (s : Swarm K Sk S C W)
          → Sound own s
          → Sound own (cb.on_builtin payload s))

  abbrev pub IsValidator :
      Option (MessagePayload K Message → Swarm K Sk S C W → Option String × Swarm K Sk S C W)
      → Type 0
  IsValidator none = Unit
  IsValidator (some v) =
      (payload : MessagePayload K Message) (s : Swarm K Sk S C W)
      → Sound own s
      → Sound own ((v payload s).1)

  abbrev pub IsRespectful : MessageHandler K Sk S C W → Type 0
  IsRespectful h = IsCallback h.callback × IsValidator h.validator

module _ {K Sk S C W : Type 0} (env : Env K Sk S C W) (own : Did) where
  called_back-Sound :
      (cb : MessageCallback K Sk S C W) (payload : MessagePayload K Message) (m : Message)
      (s : Swarm K Sk S C W)
      → IsCallback own (some cb)
      → Sound own s
      → Sound own (called_back cb payload m s)
  unfolding called_back
  called_back-Sound cb payload (custom_message msg) s h p =
      elim (Bool-cases (s.dht.did == payload.relay.destination)) [
        | inl e ↦ rw e (h.0 payload msg s p)
        | inr e ↦ rw e p
      ]
  called_back-Sound cb payload (join_dht _) s h p = h.1 payload s p
  called_back-Sound cb payload (leave_dht _) s h p = h.1 payload s p
  called_back-Sound cb payload (connect_node_send _ _) s h p = h.1 payload s p
  called_back-Sound cb payload (connect_node_report _ _) s h p = h.1 payload s p
  called_back-Sound cb payload already_connected s h p = h.1 payload s p
  called_back-Sound cb payload (find_successor_send _ _ _) s h p = h.1 payload s p
  called_back-Sound cb payload (find_successor_report _ _) s h p = h.1 payload s p
  called_back-Sound cb payload (notify_predecessor_send _) s h p = h.1 payload s p
  called_back-Sound cb payload (notify_predecessor_report _) s h p = h.1 payload s p
  called_back-Sound cb payload (search_vnode _) s h p = h.1 payload s p
  called_back-Sound cb payload (found_vnode _) s h p = h.1 payload s p
  called_back-Sound cb payload (operate_vnode _) s h p = h.1 payload s p
  called_back-Sound cb payload (sync_vnode_with_successor _) s h p = h.1 payload s p
  called_back-Sound cb payload (multi_call _) s h p = h.1 payload s p

  callback-Sound :
      (o : Option (MessageCallback K Sk S C W)) (payload : MessagePayload K Message) (m : Message)
      → IsCallback own o
      → Keeps {St = Swarm K Sk S C W}
          (Sound own)
          (elim o [ none ↦ done | some cb ↦ modify (called_back cb payload m) ])
  callback-Sound none payload m h = keeps (Sound own) _ (λ s p. p)
  callback-Sound (some cb) payload m h =
      keeps (Sound own) _ (λ s p. called_back-Sound cb payload m s h p)

  verdict-Sound : (r : Option String × Swarm K Sk S C W) → Sound own r.1 → Sound own ((verdict r).1)
  verdict-Sound (none, s) p = p
  verdict-Sound (some _, s) p = p

  validator-Sound :
      (o : Option (MessagePayload K Message → Swarm K Sk S C W → Option String × Swarm K Sk S C W))
      (payload : MessagePayload K Message)
      → IsValidator own o
      → Keeps {St = Swarm K Sk S C W}
          (Sound own)
          (elim o [ none ↦ done | some v ↦ λ self. verdict (v payload self) ])
  validator-Sound none payload h = keeps (Sound own) _ (λ s p. p)
  validator-Sound (some v) payload h =
      keeps (Sound own) _ (λ s p. verdict-Sound (v payload s) (h payload s p))

  module _ (handler : MessageHandler K Sk S C W) (h : IsRespectful own handler) where
    around-Sound :
        (payload : MessagePayload K Message) (m : Act (Swarm K Sk S C W) (Unit {0}))
        → Keeps (Sound own) m
        → Keeps (Sound own) (around env handler payload m)
    unfolding validate invoke_callback
    around-Sound payload m hm =
        bind-Keeps (Sound own) _ _ (validator-Sound handler.validator payload h.1) λ _.
          bind-Keeps (Sound own) _ _ hm
            (λ _. callback-Sound handler.callback payload payload.content h.0)

    mutual
      unfolding handle_as handle_all handle_leave_dht IsMessage AllMessages

      handle_as-Sound :
          (m : Message) (payload : MessagePayload K Message)
          → IsMessage m
          → Keeps (Sound own) (handle_as env handler m payload)
      handle_as-Sound (join_dht d) payload i =
          around-Sound payload _ (handle_join_dht-Sound env own payload d i)
      handle_as-Sound (leave_dht d) payload i = around-Sound payload _ (disconnect-Sound env own d)
      handle_as-Sound (connect_node_send id info) payload i =
          around-Sound payload _
            (Same-Sound own _ (handle_connect_node_send-Same env payload id info))
      handle_as-Sound (connect_node_report id info) payload i =
          around-Sound payload _
            (Same-Sound own _ (handle_connect_node_report-Same env payload id info))
      handle_as-Sound already_connected payload i =
          around-Sound payload _ (Same-Sound own _ (handle_already_connected-Same env payload))
      handle_as-Sound (find_successor_send d strict t) payload i =
          around-Sound payload _
            (Same-Sound own _ (handle_find_successor_send-Same env payload d strict t))
      handle_as-Sound (find_successor_report d r) payload i =
          around-Sound payload _ (handle_find_successor_report-Sound env own payload d r i)
      handle_as-Sound (notify_predecessor_send d) payload i =
          around-Sound payload _ (handle_notify_predecessor_send-Sound env own payload d i)
      handle_as-Sound (notify_predecessor_report d) payload i =
          around-Sound payload _ (handle_notify_predecessor_report-Sound env own payload d i)
      handle_as-Sound (search_vnode vid) payload i =
          around-Sound payload _ (Same-Sound own _ (handle_search_vnode-Same env payload vid))
      handle_as-Sound (found_vnode l) payload i =
          around-Sound payload _ (handle_found_vnode-Sound env own payload l)
      handle_as-Sound (operate_vnode op) payload i =
          around-Sound payload _ (handle_operate_vnode-Sound env own payload op)
      handle_as-Sound (custom_message _) payload i =
          around-Sound payload _ (Same-Sound own _ (handle_custom_message-Same env payload))
      handle_as-Sound (multi_call l) payload i =
          around-Sound payload _ (handle_all-Sound l payload i)
      handle_as-Sound (sync_vnode_with_successor _) payload i =
          around-Sound payload _ (keeps (Sound own) _ (λ s p. p))

      handle_all-Sound :
          (l : Messages) (payload : MessagePayload K Message)
          → AllMessages l
          → Keeps (Sound own) (handle_all env handler l payload)
      handle_all-Sound nil payload i = keeps (Sound own) _ (λ s p. p)
      handle_all-Sound (cons m l) payload i =
          bind-Keeps (Sound own) _ _ (keeps (Sound own) _ (λ s p. p)) λ inner.
            bind-Keeps (Sound own) _ _ (is_ok-Keeps (Sound own) _ (handle_as-Sound m inner i.0))
              (λ _. handle_all-Sound l payload i.1)

    handled-Sound :
        (addr : Did) (r : Result (Unit {0}) × Swarm K Sk S C W)
        → Sound own r.1
        → Sound own ((handled env handler addr r).1)
    handled-Sound addr (ok _, s) p = elim (Bool-cases s.measured) [
      | inl e ↦ rw e p
      | inr e ↦ rw e p
    ]
    handled-Sound addr (err _, s) p = elim (Bool-cases s.measured) [
      | inl e ↦ rw e p
      | inr e ↦ rw e p
    ]
    handled-Sound addr (panic, s) p = p

    pub handle_payload-Sound :
        (payload : MessagePayload K Message)
        → IsMessage payload.content
        → Keeps (Sound own) (handle_payload env handler payload)
    unfolding handle_payload handle_message
    handle_payload-Sound payload i = keeps (Sound own) _ λ s p.
        elim (Bool-cases (verify env.signers (env.rtc.now s.world) payload)) [
          | inl e ↦ rw e (
              handled-Sound payload.addr _
                (after (Sound own) _ (handle_as-Sound payload.content payload i) s p))
          | inr e ↦ rw e p
        ]
