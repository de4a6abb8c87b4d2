-- ===== src/Swarm/Events.antt =====
-- `load_message` and `poll_message` of rings-core/src/swarm.rs: what an event of the transports does to the
-- tables, and the message it becomes.
pub mod Messages
use rings_node.Base.{ℕ, Bool, true, false, Option, none, some, ◌==◌, if◌then◌else◌}
use rings_node.Error.{Error, Result, ok, err, panic, swarm_miss_transport}
use rings_node.Did.{Did}
use rings_node.Message.{Message, join_dht, leave_dht}
use rings_node.Payload.{MessagePayload}
use rings_node.Act.{Act, pure, raise, lift, gets, is_ok, done, ◌>>=◌}
use rings_node.Swarm.{Swarm, Env, Event, data_channel_message, register_transport, connect_closed}
use rings_node.Swarm.Transports.{register, get_transport, remove_transport}
use rings_node.Swarm.Pending.{find_pending_transport, pop_pending_transport}
use rings_node.Swarm.Send.{made_send}

module _ {K Sk S C W : Type 0} (env : Env K Sk S C W) where
  -- A message of the node to itself.
  abbrev pub to_self : Message → Act (Swarm K Sk S C W) (Option (MessagePayload K Message))
  to_self msg = do
    own ← gets (λ self. self.dht.did)
    payload ← made_send env msg own own
    pure (some payload)

  abbrev pub found_or_none :
      Result (Option ℕ) × Swarm K Sk S C W → Result (Option ℕ) × Swarm K Sk S C W
  found_or_none (ok found, self) = (ok found, self)
  found_or_none (err _, self) = (ok none, self)
  found_or_none (panic, self) = (panic, self)

  -- `if let Ok(Some(t)) = self.find_pending_transport(id)`
  unfoldable pub move_pending : Did → ℕ → Act (Swarm K Sk S C W) (Unit {0})
  move_pending did id = do
    found ← λ self. found_or_none (find_pending_transport id self)
    elim found [ none ↦ done | some t ↦ do _ ← register env did t; pop_pending_transport id ]

  unfoldable pub on_register : Did → ℕ → Act (Swarm K Sk S C W) (Option (MessagePayload K Message))
  unfolding move_pending
  on_register did id = do
    _ ← move_pending did id
    found ← gets (get_transport did)
    elim found [ none ↦ raise swarm_miss_transport | some _ ↦ to_self (join_dht did) ]

  unfoldable pub on_closed : Did → ℕ → Act (Swarm K Sk S C W) (Option (MessagePayload K Message))
  on_closed did uuid = do
    _ ← is_ok (pop_pending_transport uuid)
    found ← gets (get_transport did)
    elim found [
      | none ↦ pure none
      | some t ↦
          if t == uuid
          then (do
            removed ← remove_transport did
            elim removed [ none ↦ pure none | some _ ↦ to_self (leave_dht did) ])
          else pure none
    ]

  unfoldable pub load_message :
      Result (Option Event) → Act (Swarm K Sk S C W) (Option (MessagePayload K Message))
  unfolding on_register on_closed
  load_message (ok (some (data_channel_message msg))) = do
    payload ← lift (env.rtc.from_bincode msg)
    pure (some payload)
  load_message (ok (some (register_transport did id))) = on_register did id
  load_message (ok (some (connect_closed did uuid))) = on_closed did uuid
  load_message (ok none) = pure none
  load_message (err e) = raise e
  load_message panic = lift panic

  abbrev pub some_or_none :
      Result (Option (MessagePayload K Message)) × Swarm K Sk S C W
      → Result (Option (MessagePayload K Message)) × Swarm K Sk S C W
  some_or_none (ok found, self) = (ok found, self)
  some_or_none (err _, self) = (ok none, self)
  some_or_none (panic, self) = (panic, self)

  -- `poll_message`, with the event that the channel gives.
  unfoldable pub poll_message :
      Result (Option Event) → Act (Swarm K Sk S C W) (Option (MessagePayload K Message))
  unfolding load_message
  poll_message ev self = some_or_none (load_message ev self)
