-- ===== src/Processor/Handshake.antt =====
-- What comes of the steps of a handshake.
use rings_node.Base.{
  ℕ, ◌≡◌, refl, ap, sym, ◌∙◌, subst, Bool, true, false, Option, none, some, List, [], ◌∷◌, ◌++◌,
  String, if◌then◌else◌,
}
use rings_node.Error.{
  Result, ok, err, panic, ok-inj, pending_transport, register_ice_error, invalid_transport_id,
  transport_not_found, remote_rpc_error, swarm_pending_trans_try_lock_failed, create_offer_error,
  new_transport_error,
}
use rings_node.Did.{Did}
use rings_node.Act.{bound, map_err, is_ok, or_raise, pure, ◌>>=◌}
use rings_node.Act.Keeps.{after, keeps, map_err-Keeps}
use rings_node.Act.Gives.{through, rescued_ok, then_raise, mapped_ok, or_raise_ok}
use rings_node.Swarm.{Swarm, Env, call, offer}
use rings_node.Swarm.Transports.{get, close, new_transport, register}
use rings_node.Swarm.Pending.{
  find, remove_first, set_pending, push_pending_transport, pop_pending_transport,
  find_pending_transport,
}
use rings_node.Processor.{
  Client, accept_answer, create_offer, offered, linked, connect_peer_via_http,
}
use rings_node.Processor.Lists.{Pends, IsSettled, find_pending_ok, find-same, registered, settled}

module _ {K Sk S C W : Type 0} (env : Env K Sk S C W) (ice : String) where
  -- From the pending transport on.
  answered :
      (p : List ℕ) (u t : ℕ) (did : Did) (s s' : Swarm K Sk S C W)
      → Pends p false s
      → find p u ≡ some u
      → bound {B = Did × ℕ}
          (map_err register_ice_error (call (λ w. env.rtc.register_remote_info w u ice)) s)
          (λ d. map_err register_ice_error (register env d u) >>= λ _.
            is_ok (pop_pending_transport u) >>= λ _. pure (d, u))
        ≡ (ok (did, t), s')
      → IsSettled p did t s'
  answered p u t did s s' pends f e =
      through (map_err register_ice_error (call (λ w. env.rtc.register_remote_info w u ice)) s) _
        (did, t) s' e
        λ d s1 q1 e1.
          through (map_err register_ice_error (register env d u) s1) _ (did, t) s' e1
            λ _ s2 q2 e2.
              through (is_ok (pop_pending_transport u) s2) _ (did, t) s' e2
                λ b s3 q3 e3.
                  subst (λ (r : Result (Did × ℕ) × Swarm K Sk S C W). Done r) e3
                    (settled env p d u f s2 s3 b
                      (registered env p d u f s1 s2
                        (subst (λ (r : Result Did × Swarm K Sk S C W). Pends p false r.1) q1
                          (after (Pends p false)
                            (map_err register_ice_error
                              (call (λ w. env.rtc.register_remote_info w u ice)))
                            (map_err-Keeps (Pends p false) _ _ (keeps (Pends p false) _ (λ x q. q)))
                            s pends))
                        (mapped_ok register_ice_error _ tt s2 q2))
                      q3)
    where
      Done : Result (Did × ℕ) × Swarm K Sk S C W → Type 0
      Done (ok (n, v), x) = IsSettled p n v x
      Done (err _, x) = ⊥
      Done (panic, x) = ⊥

  -- Where `accept_answer` succeeds, the transport was pending and is no longer so, the first of its identifier
  -- having gone from the list, and the table has it under the identifier that is answered.
  pub accept_answer_lem :
      (id : String) (did : Did) (t : ℕ) (s s' : Swarm K Sk S C W)
      → accept_answer env id ice s ≡ (ok (did, t), s')
      → (find s.pending t ≡ some t)
        × (get s'.transports did ≡ some t)
        × (s'.pending ≡ remove_first s.pending t)
  unfolding accept_answer
  accept_answer_lem id did t s s' e =
      through (or_raise (env.rtc.uuid_from_str id) invalid_transport_id s) _ (did, t) s' e
        λ u s0 q0 e0.
          through (map_err pending_transport (find_pending_transport u) s0) _ (did, t) s' e0
            λ o s1 q1 e1.
              through (or_raise o transport_not_found s1) _ (did, t) s' e1
                λ v s2 q2 e2.
                  at_pending u v o s0 s1 s2 ((or_raise_ok _ _ s s0 u q0).1)
                    (find_pending_ok u o s0 s1 (mapped_ok _ _ o s1 q1)) (or_raise_ok o _ s1 s2 v q2)
                    e2
    where
      at_pending :
          (u v : ℕ) (o : Option ℕ) (s0 s1 s2 : Swarm K Sk S C W)
          → s ≡ s0
          → (s0 ≡ s1) × (s0.pending_held ≡ false) × (find s0.pending u ≡ o)
          → (o ≡ some v) × (s1 ≡ s2)
          → bound {B = Did × ℕ}
              (map_err register_ice_error (call (λ w. env.rtc.register_remote_info w v ice)) s2)
              (λ d. map_err register_ice_error (register env d v) >>= λ _.
                is_ok (pop_pending_transport v) >>= λ _. pure (d, v))
            ≡ (ok (did, t), s')
          → IsSettled s.pending did t s'
      at_pending u v o s0 s1 s2 same0 (same1, free, found) (has, same2) e2 =
          let own : v ≡ u = find-same s0.pending u v (found ∙ has) in
          answered s.pending v t did s2 s'
            (subst (Pends s.pending false) (same1 ∙ same2) (ap (λ x. x.pending) (sym same0), free))
            (subst (λ (n : ℕ). find s.pending n ≡ some v) (sym own)
              (subst (λ x. find x.pending u ≡ some v) (sym same0) (found ∙ has)))
            e2

locked_push :
    {K Sk S C W : Type 0} (b : Bool) (t : ℕ) (s s' : Swarm K Sk S C W)
    → bound {B = Unit {0}}
        (if b then (err swarm_pending_trans_try_lock_failed, s) else (ok s.pending, s))
        (λ pending. set_pending (pending ++ t ∷ []))
      ≡ (ok tt, s')
    → s'.pending ≡ s.pending ++ t ∷ []
unfolding bound
locked_push true t s s' e = cc
locked_push false t s s' e = ap (λ (r : Result (Unit {0}) × _). r.1.pending) (sym e)

module _ {K Sk S C W : Type 0} (env : Env K Sk S C W) where
  pushed :
      (t : ℕ) (s s' : Swarm K Sk S C W)
      → push_pending_transport t s ≡ (ok tt, s')
      → s'.pending ≡ s.pending ++ t ∷ []
  unfolding push_pending_transport
  pushed t s s' e = locked_push s.pending_held t s s' e

  offered_pending :
      (u t : ℕ) (info : String) (s s' : Swarm K Sk S C W)
      → offered env u s ≡ (ok (t, info), s')
      → s'.pending ≡ s.pending ++ t ∷ []
  unfolding offered
  offered_pending u t info s s' e =
      through
        (map_err create_offer_error
          (call (λ w. env.rtc.get_handshake_info w u s.session_manager offer)) s)
        _ (t, info) s' e
        λ i s1 q1 e1.
          through (map_err pending_transport (push_pending_transport u) s1) _ (t, info) s' e1
            λ _ s2 q2 e2.
              ap (λ x. x.pending)
                (sym (ap (λ (r : Result (ℕ × String) × Swarm K Sk S C W). r.1) e2))
              ∙ pushed u s1 s2 (mapped_ok pending_transport _ tt s2 q2)
              ∙ ap (λ l. l ++ u ∷ [])
                  (ap (λ (r : Result String × Swarm K Sk S C W). r.1.pending)
                    (sym (mapped_ok create_offer_error _ i s1 q1)))
              ∙ ap (λ n. s.pending ++ n ∷ [])
                  (ap (λ (n : ℕ × String). n.0)
                    (ok-inj (ap (λ (r : Result (ℕ × String) × Swarm K Sk S C W). r.0) e2)))

  -- Where `create_offer` succeeds, its transport is the last of the pending ones, and the others stay.
  create_offer-pending :
      (t : ℕ) (info : String) (s s' : Swarm K Sk S C W)
      → create_offer env s ≡ (ok (t, info), s')
      → s'.pending ≡ s.pending ++ t ∷ []
  unfolding create_offer new_transport
  create_offer-pending t info s s' e =
      through (map_err (λ _. new_transport_error) (new_transport env) s) _ (t, info) s' e
        λ u s1 q1 e1.
          offered_pending u t info s1 s' (
            rescued_ok (offered env u s1) _ (t, info) s'
              (λ x s2. then_raise (is_ok (close env u) s2) x (t, info) s') e1)
          ∙ ap (λ l. l ++ t ∷ [])
              (ap (λ (r : Result ℕ × Swarm K Sk S C W). r.1.pending)
                (sym (mapped_ok (λ _. new_transport_error) _ u s1 q1)))

  -- Where an offer can be made and the node at the URL cannot be asked, `connect_peer_via_http` fails and leaves
  -- everything as the offer left it, but for what the call did: its transport is still the last of the
  -- pending ones.
  pub failed_link_stays_open :
      (cl : Client W) (url info : String) (t : ℕ) (w : W) (s s' : Swarm K Sk S C W)
      → create_offer env s ≡ (ok (t, info), s')
      → cl.call_answer_offer s'.world url info ≡ (none, w)
      → (connect_peer_via_http env cl url s ≡ (err remote_rpc_error, record s' { world = w }))
        × (s'.pending ≡ s.pending ++ t ∷ [])
  unfolding connect_peer_via_http linked bound
  failed_link_stays_open cl url info t w s s' e f =
      (rw (e, f) refl, create_offer-pending t info s s' e)
