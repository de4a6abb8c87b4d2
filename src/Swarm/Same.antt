-- ===== src/Swarm/Same.antt =====
-- The steps that leave the ring of the node as it is: all but those of the handlers that change it.
use rings_node.Base.{ℕ, ◌≡◌, refl, ◌∙◌, Bool, true, false, if◌then◌else◌, Option, none, some, arith}
use rings_node.Error.{Error, Result, ok, err, panic}
use rings_node.Did.{Did}
use rings_node.Relay.{MessageRelay}
use rings_node.Message.{Message}
use rings_node.Payload.{MessagePayload}
use rings_node.Action.{PeerRingAction}
use rings_node.Act.{Act, pure, bound, caught, ◌>>=◌, is_ok, or_raise}
use rings_node.Swarm.{Swarm, Env}
use rings_node.Swarm.Transports.{
  get_and_check_transport, close, is_disconnected, get_transport, new_transport, remove_transport,
}
use rings_node.Swarm.Pending.{
  push_pending_transport, pop_pending_transport, find_pending_transport, pending_transports,
}
use rings_node.Swarm.Send.{
  send_payload, do_send_payload, send_message, made_send, send_direct_message, send_report_message,
  forward_payload, next_of,
}
use rings_node.Swarm.Connect.{connect, open_connection}

abbrev pub Same : {K Sk S C W A : Type 0} → Act (Swarm K Sk S C W) A → Type 0
Same m = (s : _) → ((m s).1).dht ≡ s.dht

module _ {K Sk S C W A B : Type 0} where
  bound-Same :
      (r : Result A × Swarm K Sk S C W) (f : A → Act (Swarm K Sk S C W) B)
      → ((a : A) → Same (f a))
      → ((bound r f).1).dht ≡ (r.1).dht
  unfolding bound
  bound-Same (ok a, s) f h = h a s
  bound-Same (err e, s) f h = refl
  bound-Same (panic, s) f h = refl

  pub bind-Same :
      (m : Act (Swarm K Sk S C W) A) (f : A → Act (Swarm K Sk S C W) B)
      → Same m
      → ((a : A) → Same (f a))
      → Same (m >>= f)
  bind-Same m f hm hf s = bound-Same (m s) f hf ∙ hm s

  -- The match on an `Option`, and `if`.
  pub option-Same :
      (o : Option A) (m : Act (Swarm K Sk S C W) B) (f : A → Act (Swarm K Sk S C W) B)
      → Same m
      → ((a : A) → Same (f a))
      → Same (elim o [ none ↦ m | some a ↦ f a ])
  option-Same none m f hm hf = hm
  option-Same (some a) m f hm hf = hf a

module _ {K Sk S C W A : Type 0} where
  pub or_raise-Same :
      (o : Option A) (e : Error) → Same {K = K} {Sk = Sk} {S = S} {C = C} {W = W} (or_raise o e)
  or_raise-Same none e s = refl
  or_raise-Same (some a) e s = refl

  pub if-Same :
      (b : Bool) (m n : Act (Swarm K Sk S C W) A) → Same m → Same n → Same (if b then m else n)
  if-Same true m n hm hn = hm
  if-Same false m n hm hn = hn

  pub is_ok-Same : (m : Act (Swarm K Sk S C W) A) → Same m → Same (is_ok m)
  is_ok-Same m h s = same (m s) (h s)
    where
      same : (r : Result A × Swarm K Sk S C W) → r.1.dht ≡ s.dht → (caught r).1.dht ≡ s.dht
      same (ok a, s') e = e
      same (err x, s') e = e
      same (panic, s') e = e

module _ {K Sk S C W : Type 0} where
  pub push_pending_transport-Same :
      (t : ℕ) → Same {K = K} {Sk = Sk} {S = S} {C = C} {W = W} (push_pending_transport t)
  unfolding push_pending_transport bound
  push_pending_transport-Same t s = ground arith

  pub pending_transports-Same : Same {K = K} {Sk = Sk} {S = S} {C = C} {W = W} pending_transports
  unfolding pending_transports
  pending_transports-Same s = ground arith

  pub find_pending_transport-Same :
      (t : ℕ) → Same {K = K} {Sk = Sk} {S = S} {C = C} {W = W} (find_pending_transport t)
  unfolding find_pending_transport bound
  find_pending_transport-Same t s = ground arith

  pub pop_pending_transport-Same :
      (t : ℕ) → Same {K = K} {Sk = Sk} {S = S} {C = C} {W = W} (pop_pending_transport t)
  unfolding pop_pending_transport bound
  pop_pending_transport-Same t s = ground arith

  pub remove_transport-Same :
      (did : Did) → Same {K = K} {Sk = Sk} {S = S} {C = C} {W = W} (remove_transport did)
  unfolding remove_transport
  remove_transport-Same did s = ground arith

module _ {K Sk S C W : Type 0} (env : Env K Sk S C W) where
  pub close-Same : (t : ℕ) → Same (close env t)
  unfolding close
  close-Same t s = ground arith

  pub get_and_check_transport-Same : (did : Did) → Same (get_and_check_transport env did)
  unfolding bound get_and_check_transport close get_transport is_disconnected
  get_and_check_transport-Same did s = ground arith

  pub do_send_payload-Same :
      (did : Did) (payload : MessagePayload K Message) → Same (do_send_payload env did payload)
  unfolding do_send_payload
  do_send_payload-Same did payload =
      bind-Same _ _ (get_and_check_transport-Same did)
        (λ found. unfold bound in (λ s. ground arith))

  pub send_payload-Same : (payload : MessagePayload K Message) → Same (send_payload env payload)
  unfolding send_payload
  send_payload-Same payload =
      option-Same payload.relay.next_hop _ _ (λ s. refl) (λ did. do_send_payload-Same did payload)

  pub send_report_message-Same :
      (msg : Message) (id : ℕ) (relay : MessageRelay) → Same (send_report_message env msg id relay)
  unfolding send_report_message
  send_report_message-Same msg id relay = bind-Same _ _ (λ s. refl) send_payload-Same

  pub forward_payload-Same :
      (payload : MessagePayload K Message) (relay : MessageRelay)
      → Same (forward_payload env payload relay)
  unfolding forward_payload
  forward_payload-Same payload relay = bind-Same _ _ (λ s. refl) send_payload-Same

  sent-Same :
      (msg : Message) (next_hop destination : Did)
      → Same (
          made_send env msg next_hop destination >>= λ payload.
          send_payload env payload >>= λ _. pure payload.tx_id)
  unfolding made_send
  sent-Same msg next_hop destination =
      bind-Same _ _ (λ s. refl) (λ payload. bind-Same _ _ (send_payload-Same payload) (λ _ s. refl))

  pub send_direct_message-Same :
      (msg : Message) (did : Did) → Same (send_direct_message env msg did)
  unfolding send_direct_message
  send_direct_message-Same msg did = sent-Same msg did did

  next_of-Same : (a : PeerRingAction) → Same (next_of env a)
  next_of-Same a s = ground arith

  pub send_message-Same : (msg : Message) (did : Did) → Same (send_message env msg did)
  unfolding send_message
  send_message-Same msg did =
      bind-Same _ _ (λ s. refl)
        (λ action. bind-Same _ _ (next_of-Same action) (λ next. sent-Same msg next did))

  pub new_transport-Same : Same (new_transport env)
  unfolding new_transport
  new_transport-Same s = refl

  open_connection-Same : (did : Did) → Same (open_connection env did)
  unfolding open_connection
  open_connection-Same did = bind-Same _ _ new_transport-Same λ t.
      bind-Same _ _ (λ s. refl)
        λ info.
          bind-Same _ _ (push_pending_transport-Same t)
            λ _. bind-Same _ _ (send_message-Same _ did) λ _ s. refl

  pub connect-Same : (did : Did) → Same (connect env did)
  unfolding connect
  connect-Same did =
      bind-Same _ _ (get_and_check_transport-Same did)
        λ found. option-Same found _ _ (open_connection-Same did) (λ t s. refl)
