-- ===== src/Swarm/Events/Messages.antt =====
-- The events leave the ring as it is, and only messages on identifiers come of them.
use rings_node.Base.{ℕ, ◌≡◌, refl, subst, ap, ◌∙◌, not, ◌&&◌, Option, none, some, List, ◌==◌}
use rings_node.Error.{Result, ok, err, panic, >>=_steps, ok-inj}
use rings_node.Did.{Did}
use rings_node.Session.{pack_msg}
use rings_node.Session.Manager.{authorizer_did, session, sign}
use rings_node.Message.{Message, join_dht, leave_dht}
use rings_node.Payload.{MessagePayload}
use rings_node.Payload.New.{new_send, new_payload}
use rings_node.Act.{pure}
use rings_node.Act.Gives.{Gives, gives, given, bind-Gives, then-Gives, option-Gives, if-Gives}
use rings_node.Swarm.{Swarm, Env, Event, data_channel_message, register_transport, connect_closed}
use rings_node.Swarm.Same.{
  Same, bind-Same, option-Same, if-Same, is_ok-Same, close-Same, pop_pending_transport-Same,
  find_pending_transport-Same, remove_transport-Same,
}
use rings_node.Swarm.Transports.{register, replace}
use rings_node.Swarm.Pending.{find_pending_transport}
use rings_node.Swarm.Send.{made_send}
use rings_node.Swarm.Events.{
  to_self, found_or_none, move_pending, on_register, on_closed, load_message, some_or_none,
  poll_message,
}

module _ {K Sk S C W : Type 0} (env : Env K Sk S C W) where
  replace-Same : (d : Did) (t new : ℕ) → Same (replace env d t new)
  unfolding replace
  replace-Same d t new =
      bind-Same _ _ (λ s. refl)
        λ up.
          bind-Same _ _ (λ s. refl)
            λ new_up.
              if-Same (up && not new_up) _ _ (λ s. refl)
                (if-Same (t == new) _ _ (λ s. refl)
                  (bind-Same _ _ (λ s. refl)
                    λ _.
                      bind-Same _ _ (is_ok-Same _ (close-Same env t))
                        λ b. if-Same b _ _ (λ s. refl) (λ s. refl)))

  pub register-Same : (d : Did) (t : ℕ) → Same (register env d t)
  unfolding register
  register-Same d t =
      bind-Same _ _ (λ s. refl)
        λ down.
          if-Same down _ _ (λ s. refl)
            (bind-Same _ _ (λ s. refl)
              λ prev. option-Same prev _ _ (λ s. refl) (λ old. replace-Same d old t))

  to_self-Same : (msg : Message) → Same (to_self env msg)
  unfolding made_send
  to_self-Same msg = bind-Same _ _ (λ s. refl) λ own. bind-Same _ _ (λ s. refl) (λ p s. refl)

  found_or_none-dht :
      (r : Result (Option ℕ) × Swarm K Sk S C W) → (found_or_none env r).1.dht ≡ r.1.dht
  found_or_none-dht (ok _, s) = refl
  found_or_none-dht (err _, s) = refl
  found_or_none-dht (panic, s) = refl

  move_pending-Same : (d : Did) (id : ℕ) → Same (move_pending env d id)
  unfolding move_pending
  move_pending-Same d id =
      bind-Same _ _
        (λ s. found_or_none-dht (find_pending_transport id s) ∙ find_pending_transport-Same id s)
        λ found.
          option-Same found _ _ (λ s. refl)
            (λ t. bind-Same _ _ (register-Same d t) (λ _. pop_pending_transport-Same id))

  load_message-Same : (ev : Result (Option Event)) → Same (load_message env ev)
  unfolding load_message on_register on_closed
  load_message-Same (ok (some (data_channel_message msg))) = bind-Same _ _ (λ s. refl) (λ p s. refl)
  load_message-Same (ok (some (register_transport d id))) =
      bind-Same _ _ (move_pending-Same d id) λ _.
        bind-Same _ _ (λ s. refl) λ found. option-Same found _ _ (λ s. refl) (λ t. to_self-Same _)
  load_message-Same (ok (some (connect_closed d id))) =
      bind-Same _ _ (is_ok-Same _ (pop_pending_transport-Same id)) λ _.
        bind-Same _ _ (λ s. refl)
          λ found.
            option-Same found _ _ (λ s. refl)
              λ t.
                if-Same (t == id) _ _
                  (bind-Same _ _ (remove_transport-Same d)
                    λ removed. option-Same removed _ _ (λ s. refl) (λ _. to_self-Same _))
                  (λ s. refl)
  load_message-Same (ok none) = λ s. refl
  load_message-Same (err e) = λ s. refl
  load_message-Same panic = λ s. refl

  some_or_none-dht :
      (r : Result (Option (MessagePayload K Message)) × Swarm K Sk S C W)
      → (some_or_none env r).1.dht ≡ r.1.dht
  some_or_none-dht (ok _, s) = refl
  some_or_none-dht (err _, s) = refl
  some_or_none-dht (panic, s) = refl

  pub poll_message-Same : (ev : Result (Option Event)) → Same (poll_message env ev)
  unfolding poll_message
  poll_message-Same ev s = some_or_none-dht (load_message env ev s) ∙ load_message-Same ev s

module _ {K Sk S C W : Type 0} (env : Env K Sk S C W) (Q : Message → Type 0) where
  -- The content of a payload, if there is one, is in `Q`.
  abbrev pub Content : Option (MessagePayload K Message) → Type 0
  Content none = Unit
  Content (some payload) = Q payload.content

  made_send-Gives :
      (msg : Message) (next_hop destination : Did)
      → Q msg
      → Gives (λ p. Q p.content) (made_send env msg next_hop destination)
  unfolding made_send new_send new_payload
  made_send-Gives msg next_hop destination h =
      gives (λ p. Q p.content) _
        λ s a e.
          let (from, e1, _) = >>=_steps (authorizer_did s.session_manager) _ e in
          let (m, e2, _) = >>=_steps (pack_msg env.signers msg _ _) _ e1 in
          let (addr, e3, _) = >>=_steps (authorizer_did s.session_manager) _ e2 in
          let (own, e4, _) = >>=_steps (session s.session_manager) _ e3 in
          let (sig, e5, _) = >>=_steps (sign env.key_signer s.session_manager m) _ e4 in
          subst Q (ap (λ (p : MessagePayload K Message). p.content) (ok-inj e5)) h

  to_self-Gives : (msg : Message) → Q msg → Gives Content (to_self env msg)
  to_self-Gives msg h = bind-Gives Content _ _ λ own.
      then-Gives (λ p. Q p.content) Content _ _ (made_send-Gives msg own own h)
        λ p i. gives Content _ (λ s a e. subst Content (ok-inj e) i)

  none-Gives : Gives {St = Swarm K Sk S C W} Content (pure none)
  none-Gives = gives Content _ (λ s a e. subst Content (ok-inj e) tt)

  load_message-Gives :
      (ev : Result (Option Event))
      → ((bytes : List ℕ) (p : MessagePayload K Message)
          → env.rtc.from_bincode bytes ≡ ok p
          → Q p.content)
      → ((d : Did) (id : ℕ) → ev ≡ ok (some (register_transport d id)) → Q (join_dht d))
      → ((d : Did) (id : ℕ) → ev ≡ ok (some (connect_closed d id)) → Q (leave_dht d))
      → Gives Content (load_message env ev)
  unfolding load_message on_register on_closed
  load_message-Gives (ok (some (data_channel_message msg))) decoded joined left =
      then-Gives (λ p. Q p.content) Content _ _
        (gives (λ p. Q p.content) _ (λ s a e. decoded msg a e))
        (λ p i. gives Content _ (λ s a e. subst Content (ok-inj e) i))
  load_message-Gives (ok (some (register_transport d id))) decoded joined left =
      bind-Gives Content _ _ λ _. bind-Gives Content _ _ λ found.
        option-Gives Content found _ _ (gives Content _ (λ s a e. cc))
          (λ t. to_self-Gives (join_dht d) (joined d id refl))
  load_message-Gives (ok (some (connect_closed d id))) decoded joined left =
      bind-Gives Content _ _ λ _. bind-Gives Content _ _ λ found.
        option-Gives Content found _ _ none-Gives λ t.
          if-Gives Content (t == id) _ _
            (bind-Gives Content _ _ λ removed.
              option-Gives Content removed _ _ none-Gives
                (λ _. to_self-Gives (leave_dht d) (left d id refl)))
            none-Gives
  load_message-Gives (ok none) decoded joined left = none-Gives
  load_message-Gives (err x) decoded joined left = gives Content _ (λ s a e. cc)
  load_message-Gives panic decoded joined left = gives Content _ (λ s a e. cc)

  some_or_none-Content :
      (r : Result (Option (MessagePayload K Message)) × Swarm K Sk S C W)
      → ((a : Option (MessagePayload K Message)) → r.0 ≡ ok a → Content a)
      → (a : Option (MessagePayload K Message)) → (some_or_none env r).0 ≡ ok a
      → Content a
  some_or_none-Content (ok found, s) h a e = h a e
  some_or_none-Content (err x, s) h a e = subst Content (ok-inj e) tt
  some_or_none-Content (panic, s) h a e = cc

  -- What a poll gives comes out of a decoded message, a new transport or a closed one.
  pub poll_message-Gives :
      (ev : Result (Option Event))
      → ((bytes : List ℕ) (p : MessagePayload K Message)
          → env.rtc.from_bincode bytes ≡ ok p
          → Q p.content)
      → ((d : Did) (id : ℕ) → ev ≡ ok (some (register_transport d id)) → Q (join_dht d))
      → ((d : Did) (id : ℕ) → ev ≡ ok (some (connect_closed d id)) → Q (leave_dht d))
      → Gives Content (poll_message env ev)
  unfolding poll_message
  poll_message-Gives ev decoded joined left = gives Content _ λ s a e.
      some_or_none-Content (load_message env ev s)
        (given Content _ (load_message-Gives ev decoded joined left) s) a e
