-- ===== src/Node/Invariant.antt =====
-- What stays true of a node in operation.
use rings_node.Base.{
  ℕ, ◌≡◌, refl, sym, ◌∙◌, subst, ap, ◌<◌, ◌^◌, not, ◌==◌, Option, none, some, List, [], ◌∷◌, All,
}
use rings_node.Error.{Result, ok, err, >>=_steps, ok-inj, swarm_build_failed}
use rings_node.Did.{Did, IsDid}
use rings_node.Action.{PeerRingAction, nothing, some_vnode, some_node, remote_action, multi_actions}
use rings_node.Action
use rings_node.Successor.{min_did}
use rings_node.Chord.Sound.{IsSound, fix_fingers-IsSound, new_with_storage-IsSound}
use rings_node.Message.{Message}
use rings_node.Payload.{MessagePayload}
use rings_node.Session.{ok_or}
use rings_node.Act.{pure, ◌>>=◌}
use rings_node.Act.Keeps.{Keeps, keeps, after, bind-Keeps, then-Keeps, option-Keeps, is_ok-Keeps}
use rings_node.Swarm.{Swarm, Env, Event, register_transport}
use rings_node.Swarm.Builder.{SwarmBuilder, build, manager_of}
use rings_node.Swarm.Send.{made_send}
use rings_node.Swarm.Same.{
  Same, bind-Same, if-Same, send_payload-Same, send_message-Same, connect-Same,
}
use rings_node.Swarm.Events.Messages.{poll_message-Same, poll_message-Gives, Content}
use rings_node.Handler.{MessageHandler, handle_payload, listen_once}
use rings_node.Handler.Sound.{
  Sound, Same-Sound, disconnect-Sound, run_operation-Sound, storage_fetch-Sound,
}
use rings_node.Handler.Invariant.{IsMessage, IsRespectful, handle_payload-Sound}
use rings_node.Handler.Storage.{storage_store}
use rings_node.Handler.Stabilization.{
  send_by, notify_each, notify_predecessor, fix_action, fix_fingers, stabilize,
}
use rings_node.Processor.{Client}
use rings_node.Processor.Same.{
  create_offer-Same, answer_offer-Same, connect_with_did-Same, accept_answer-Same, disconnect-Same,
  close_pending_transport-Same, connect_peer_via_http-Same,
}
use rings_node.Processor.Sound.{append-Sound, touch-Sound, subring_join-Sound}
use rings_node.Rpc.Replies.{Json}
use rings_node.Rpc.Sound.{handle-Sound}
use rings_node.Node.{
  Input, arrives, step, run, ticks, sends, connects, disconnects, fetches, stores, appends, touches,
  joins, offers, answers, links, closes, accepts, opens, drops, asks,
}

-- The transports name nodes by identifiers, and so do the messages that they bring: a `Did` is 20 bytes.
abbrev pub IsInput : {P : Type 0} → Input P → Type 0
IsInput (arrives (ok (some (register_transport d _)))) = IsDid d
IsInput _ = Unit

abbrev pub Decodes : {K Sk S C W : Type 0} → Env K Sk S C W → Type 0
Decodes {K = K} env =
    (bytes : List ℕ) (p : MessagePayload K Message)
    → env.rtc.from_bincode bytes ≡ ok p
    → IsMessage p.content

event_ok :
    (P : Type 0) (ev : Result (Option Event)) (d : Did) (id : ℕ)
    → IsInput {P = P} (arrives ev)
    → ev ≡ ok (some (register_transport d id))
    → IsDid d
event_ok P ev d id h e = subst (λ x. IsInput {P = P} (arrives x)) e h

module _ {K Sk S C W : Type 0} (env : Env K Sk S C W) (own : Did) where
  send_by-Same : (msg : Message) (next : Did) → Same (send_by env msg next)
  unfolding made_send
  send_by-Same msg next =
      bind-Same _ _ (λ s. refl) λ mine. bind-Same _ _ (λ s. refl) (send_payload-Same env)

  notify_each-Same : (msg : Message) (l : List Did) → Same (notify_each env msg l)
  unfolding notify_each
  notify_each-Same msg [] = λ s. refl
  notify_each-Same msg (d ∷ l) = bind-Same _ _ (send_by-Same msg d) (λ _. notify_each-Same msg l)

  notify_predecessor-Same : Same (notify_predecessor env)
  unfolding notify_predecessor
  notify_predecessor-Same =
      bind-Same _ _ (λ s. refl)
        λ successor.
          bind-Same _ _ (λ s. refl)
            λ mine. if-Same (not (mine == min_did successor)) _ _ (notify_each-Same _ _) (λ s. refl)

  fix_action-Same : (a : PeerRingAction) → Same (fix_action env a)
  unfolding fix_action
  fix_action-Same (remote_action t (Action.find_successor_for_fix d)) = send_by-Same _ t
  fix_action-Same (remote_action t (Action.find_successor _)) = λ s. refl
  fix_action-Same (remote_action t (Action.find_vnode _)) = λ s. refl
  fix_action-Same (remote_action t (Action.find_vnode_for_operate _)) = λ s. refl
  fix_action-Same (remote_action t (Action.notify _)) = λ s. refl
  fix_action-Same (remote_action t (Action.sync_vnode_with_successor _)) = λ s. refl
  fix_action-Same (remote_action t (Action.find_successor_for_connect _)) = λ s. refl
  fix_action-Same (remote_action t Action.check_predecessor) = λ s. refl
  fix_action-Same nothing = λ s. refl
  fix_action-Same (some_vnode _) = λ s. refl
  fix_action-Same (some_node _) = λ s. refl
  fix_action-Same (multi_actions _) = λ s. refl

  fix_fingers-Sound : Keeps (Sound own) (fix_fingers env)
  unfolding fix_fingers
  fix_fingers-Sound =
      bind-Keeps (Sound own) _ _ (keeps (Sound own) _ (λ s p. fix_fingers-IsSound own s.dht p))
        (λ a. Same-Sound own _ (fix_action-Same a))

  stabilize-Sound : Keeps (Sound own) (stabilize env)
  unfolding stabilize
  stabilize-Sound =
      bind-Keeps (Sound own) _ _
        (is_ok-Keeps (Sound own) _ (Same-Sound own _ notify_predecessor-Same))
        λ _.
          bind-Keeps (Sound own) _ _ (is_ok-Keeps (Sound own) _ fix_fingers-Sound)
            (λ _. keeps (Sound own) _ (λ s p. p))

  module _ {P V : Type 0} (client : Client W) (js : Json P V W)
      (handler : MessageHandler K Sk S C W) (h : IsRespectful own handler) (d : Decodes env) where
    listen_once-Sound :
        (ev : Result (Option Event))
        → IsInput {P = P} (arrives ev)
        → Keeps (Sound own) (listen_once env handler ev)
    unfolding listen_once
    listen_once-Sound ev i =
        then-Keeps (Sound own) (Content env IsMessage) _ _
          (poll_message-Gives env IsMessage ev d
            (λ n id e. unfold IsMessage in event_ok P ev n id i e)
            (λ n id e. unfold IsMessage in tt))
          (Same-Sound own _ (poll_message-Same env ev)) polled
      where
        polled :
            (o : Option (MessagePayload K Message))
            → Content env IsMessage o
            → Keeps {St = Swarm K Sk S C W} {A = Option (MessagePayload K Message)}
                (Sound own)
                (elim o [
                  | none ↦ pure none
                  | some payload ↦ handle_payload env handler payload >>= λ outcome. elim outcome [
                    | none ↦ pure none
                    | some _ ↦ pure (some payload)
                  ]
                ])
        polled none c = keeps (Sound own) _ (λ s p. p)
        polled (some payload) c =
            bind-Keeps (Sound own) _ _ (handle_payload-Sound env own handler h payload c) λ outcome.
              option-Keeps (Sound own) outcome _ _ (keeps (Sound own) _ (λ s p. p))
                (λ _. keeps (Sound own) _ (λ s p. p))

    step-Sound :
        (i : Input P) (s : Swarm K Sk S C W)
        → IsInput i
        → Sound own s
        → Sound own (step env client js handler i s)
    unfolding step storage_store
    step-Sound (arrives ev) s i p = after (Sound own) _ (listen_once-Sound ev i) s p
    step-Sound ticks s i p = after (Sound own) _ stabilize-Sound s p
    step-Sound (sends msg d) s i p = subst (IsSound own) (sym (send_message-Same env msg d s)) p
    step-Sound (connects d) s i p = subst (IsSound own) (sym (connect-Same env d s)) p
    step-Sound (disconnects d) s i p = after (Sound own) _ (disconnect-Sound env own d) s p
    step-Sound (fetches d) s i p = after (Sound own) _ (storage_fetch-Sound env own d) s p
    step-Sound (stores v) s i p = after (Sound own) _ (run_operation-Sound env own _) s p
    step-Sound (appends t c) s i p = after (Sound own) _ (append-Sound env own t c) s p
    step-Sound (touches t c) s i p = after (Sound own) _ (touch-Sound env own t c) s p
    step-Sound (joins name) s i p = after (Sound own) _ (subring_join-Sound env own name) s p
    step-Sound offers s i p = subst (IsSound own) (sym (create_offer-Same env s)) p
    step-Sound (answers info) s i p = subst (IsSound own) (sym (answer_offer-Same env info s)) p
    step-Sound (links url) s i p =
        subst (IsSound own) (sym (connect_peer_via_http-Same env client url s)) p
    step-Sound (closes id) s i p =
        subst (IsSound own) (sym (close_pending_transport-Same env id s)) p
    step-Sound (accepts id ice) s i p =
        subst (IsSound own) (sym (accept_answer-Same env id ice s)) p
    step-Sound (opens n b) s i p = subst (IsSound own) (sym (connect_with_did-Same env n b s)) p
    step-Sound (drops n) s i p = subst (IsSound own) (sym (disconnect-Same env n s)) p
    step-Sound (asks b m params) s i p =
        after (Sound own) _ (handle-Sound env client js own b m params) s p

    run-Sound :
        (inputs : List (Input P)) (s : Swarm K Sk S C W)
        → All IsInput inputs
        → Sound own s
        → Sound own (run env client js handler inputs s)
    unfolding run
    run-Sound [] s i p = p
    run-Sound (x ∷ inputs) s i p =
        run-Sound inputs (step env client js handler x s) i.1 (step-Sound x s i.0 p)

module _ {K Sk S C W : Type 0} (env : Env K Sk S C W) (own : Did) where
  build-Sound :
      (b : SwarmBuilder K Sk S) (random : Sk) (cache : C) (w : W) (s : Swarm K Sk S C W)
      → build env b random cache w ≡ ok s
      → b.dht_did ≡ some own
      → b.succ_max < 2 ^ 8
      → IsDid own
      → Sound own s
  unfolding build
  build-Sound b random cache w s e named narrow own_ok =
      let (m, e1, _) = >>=_steps (manager_of env b random w) _ e in
      let (d, e2, q) = >>=_steps (ok_or b.dht_did (err swarm_build_failed)) _ e1 in
      let same : d ≡ own = ok-inj (sym q ∙ ap (λ o. ok_or o (err swarm_build_failed)) named) in
      subst (Sound own) (ok-inj e2)
        (rw same (new_with_storage-IsSound own b.succ_max b.dht_storage cache own_ok narrow))

  -- A node that the builder made for the identifier `own` of 160 bits, with room for fewer than 256 successors, stays
  -- sound whatever reaches it, where transports and messages name nodes by 160 bits, and whatever it is asked for,
  -- by its user or by JSON-RPC, given that its callback and its validator leave a sound node sound.
  pub run-IsSound :
      {P V : Type 0} (b : SwarmBuilder K Sk S) (random : Sk) (cache : C) (w : W)
      (s : Swarm K Sk S C W) (client : Client W) (js : Json P V W)
      (handler : MessageHandler K Sk S C W) (inputs : List (Input P))
      → build env b random cache w ≡ ok s
      → b.dht_did ≡ some own
      → b.succ_max < 2 ^ 8
      → IsDid own
      → IsRespectful own handler
      → Decodes env
      → All IsInput inputs
      → IsSound own (run env client js handler inputs s).dht
  run-IsSound b random cache w s client js handler inputs e named narrow own_ok h d i =
      run-Sound env own client js handler h d inputs s i
        (build-Sound b random cache w s e named narrow own_ok)
