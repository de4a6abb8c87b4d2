-- ===== src/Processor/Same.antt =====
-- The handshakes of the processor leave the ring of the node as it is.
use rings_node.Base.{ℕ, ◌≡◌, refl, ◌∙◌, Bool, Option, none, some, String}
use rings_node.Error.{Error, Result, ok, err, panic}
use rings_node.Did.{Did}
use rings_node.Act.{Act, map_err, mapped, or_else, rescued}
use rings_node.Swarm.{Swarm, Env}
use rings_node.Swarm.Same.{
  Same, bind-Same, if-Same, is_ok-Same, or_raise-Same, new_transport-Same, close-Same, connect-Same,
  push_pending_transport-Same, pop_pending_transport-Same, find_pending_transport-Same,
  remove_transport-Same,
}
use rings_node.Swarm.Events.Messages.{register-Same}
use rings_node.Processor.{
  Client, offered, create_offer, handshake, answer_offer, connect_with_did, accept_answer,
  disconnect, close_pending_transport, asked, linked, connect_peer_via_http,
}

module _ {K Sk S C W A : Type 0} where
  pub map_err-Same :
      (f : Error → Error) (m : Act (Swarm K Sk S C W) A) → Same m → Same (map_err f m)
  map_err-Same f m h s = same (m s) (h s)
    where
      same : (r : Result A × Swarm K Sk S C W) → r.1.dht ≡ s.dht → (mapped f r).1.dht ≡ s.dht
      same (ok a, s') e = e
      same (err x, s') e = e
      same (panic, s') e = e

  pub or_else-Same :
      (m : Act (Swarm K Sk S C W) A) (f : Error → Act (Swarm K Sk S C W) A)
      → Same m
      → ((e : Error) → Same (f e))
      → Same (or_else m f)
  or_else-Same m f h g s = same (m s) (h s)
    where
      same : (r : Result A × Swarm K Sk S C W) → r.1.dht ≡ s.dht → (rescued r f).1.dht ≡ s.dht
      same (ok a, s') e = e
      same (err x, s') e = g x s' ∙ e
      same (panic, s') e = e

module _ {K Sk S C W : Type 0} (env : Env K Sk S C W) where
  offered-Same : (t : ℕ) → Same (offered env t)
  unfolding offered
  offered-Same t =
      bind-Same _ _ (map_err-Same _ _ (λ s. refl))
        λ info. bind-Same _ _ (map_err-Same _ _ (push_pending_transport-Same t)) (λ _ s. refl)

  pub create_offer-Same : Same (create_offer env)
  unfolding create_offer
  create_offer-Same = bind-Same _ _ (map_err-Same _ _ (new_transport-Same env)) λ t.
      or_else-Same _ _ (offered-Same t)
        (λ e. bind-Same _ _ (is_ok-Same _ (close-Same env t)) (λ _ s. refl))

  handshake-Same : (t : ℕ) (info : String) → Same (handshake env t info)
  unfolding handshake
  handshake-Same t info = bind-Same _ _ (map_err-Same _ _ (λ s. refl)) λ d.
      bind-Same _ _ (map_err-Same _ _ (register-Same env d t)) (λ _. map_err-Same _ _ (λ s. refl))

  pub answer_offer-Same : (info : String) → Same (answer_offer env info)
  unfolding answer_offer
  answer_offer-Same info = bind-Same _ _ (map_err-Same _ _ (new_transport-Same env)) λ t.
      or_else-Same _ _ (bind-Same _ _ (handshake-Same t info) (λ v s. refl))
        (λ e. bind-Same _ _ (map_err-Same _ _ (close-Same env t)) (λ _ s. refl))

  pub connect_with_did-Same : (d : Did) (b : Bool) → Same (connect_with_did env d b)
  unfolding connect_with_did
  connect_with_did-Same d b =
      bind-Same _ _ (map_err-Same _ _ (connect-Same env d))
        λ t. bind-Same _ _ (if-Same b _ _ (map_err-Same _ _ (λ s. refl)) (λ s. refl)) (λ _ s. refl)

  pub accept_answer-Same : (id ice : String) → Same (accept_answer env id ice)
  unfolding accept_answer
  accept_answer-Same id ice = bind-Same _ _ (or_raise-Same _ _) λ uuid.
      bind-Same _ _ (map_err-Same _ _ (find_pending_transport-Same uuid)) λ found.
        bind-Same _ _ (or_raise-Same _ _) λ t. bind-Same _ _ (map_err-Same _ _ (λ s. refl)) λ d.
          bind-Same _ _ (map_err-Same _ _ (register-Same env d t))
            λ _. bind-Same _ _ (is_ok-Same _ (pop_pending_transport-Same t)) (λ _ s. refl)

  pub disconnect-Same : (d : Did) → Same (disconnect env d)
  unfolding disconnect
  disconnect-Same d =
      bind-Same _ _ (λ s. refl)
        λ found. bind-Same _ _ (or_raise-Same _ _) λ t.
          bind-Same _ _ (map_err-Same _ _ (close-Same env t))
            λ _. bind-Same _ _ (remove_transport-Same d) (λ _ s. refl)

  pub close_pending_transport-Same : (id : String) → Same (close_pending_transport env id)
  unfolding close_pending_transport
  close_pending_transport-Same id = bind-Same _ _ (or_raise-Same _ _) λ uuid.
      bind-Same _ _ (map_err-Same _ _ (find_pending_transport-Same uuid)) λ found.
        bind-Same _ _ (or_raise-Same _ _) λ t.
          bind-Same _ _ (λ s. refl)
            λ up.
              bind-Same _ _ (if-Same up _ _ (map_err-Same _ _ (close-Same env t)) (λ s. refl))
                (λ _. map_err-Same _ _ (pop_pending_transport-Same uuid))

  asked-Same : (r : Option (Option String) × W) (s : Swarm K Sk S C W) → (asked r s).1.dht ≡ s.dht
  asked-Same (none, w) s = refl
  asked-Same (some none, w) s = refl
  asked-Same (some (some ice), w) s = refl

  pub connect_peer_via_http-Same :
      (cl : Client W) (url : String) → Same (connect_peer_via_http env cl url)
  unfolding connect_peer_via_http linked
  connect_peer_via_http-Same cl url = bind-Same _ _ create_offer-Same λ made.
      bind-Same _ _
        (bind-Same _ _ (λ s. asked-Same _ s)
          λ ice.
            bind-Same _ _ (map_err-Same _ _ (λ s. refl))
              λ d. bind-Same _ _ (map_err-Same _ _ (register-Same env d made.0)) (λ _ s. refl))
        (λ _ s. refl)
