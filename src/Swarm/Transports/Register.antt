-- ===== src/Swarm/Transports/Register.antt =====
-- The table of transports, and what `register` does to it.
use rings_node.Base.{
  none≢some, ℕ, ◌≡◌, ◌≢◌, ◌⊎◌, inl, inr, refl, ap, sym, ◌∙◌, true, not, ◌&&◌, none, some, List, [],
  ◌∷◌, arith, ◌==◌, ==_iff, Bool-cases, Option-cases, if◌then◌else◌,
}
use rings_node.Error.{
  Error, Result, ok, err, panic, invalid_transport, swarm_to_close_prev_transport,
}
use rings_node.Did.{Did}
use rings_node.Act.{bound, caught, done, raise}
use rings_node.Swarm.{Swarm, Env}
use rings_node.Swarm.Transports.{
  get, put, delete, get_transport, is_disconnected, is_connected, close, replace, register,
}

module _ {A : Type 0} where
  pub get-put :
      (l : List (Did × A)) (k j : Did) (v : A)
      → get (put l k v) j ≡ (if k == j then some v else get l j)
  unfolding get put
  get-put [] k j v = refl
  get-put ((d, a) ∷ l) k j v = ground (arith, get-put l k j v)

  pub get-delete :
      (l : List (Did × A)) (k j : Did) → get (delete l k) j ≡ (if k == j then none else get l j)
  unfolding get delete
  get-delete [] k j = ground arith
  get-delete ((d, a) ∷ l) k j = ground (arith, get-delete l k j)

  pub delete-absent : (l : List (Did × A)) (k : Did) → get l k ≡ none → delete l k ≡ l
  unfolding get delete
  delete-absent [] k h = refl
  delete-absent ((d, a) ∷ l) k h = elim (Bool-cases (d == k)) [
    | inl e ↦ absurd (none≢some (sym (rw e at h)))
    | inr e ↦ rw (e, delete-absent l k (rw e at h)) refl
  ]

module _ {K Sk S C W : Type 0} (env : Env K Sk S C W) (did : Did) (trans : ℕ)
    (s : Swarm K Sk S C W) where
  -- What may become of the table.
  pub record IsRegistered (r : Result (Unit {0}) × Swarm K Sk S C W) : Type 0 where
    pub owned : r.0 ≡ ok tt → get r.1.transports did ≡ some trans
    pub guarded :
        (t : ℕ)
        → get s.transports did ≡ some t
        → is_connected env t s ≡ true
        → (get r.1.transports did ≡ some t) ⊎ (is_connected env trans s ≡ true)
    pub others : (k : Did) → k ≢ did → get r.1.transports k ≡ get s.transports k

  refused-IsRegistered : (e : Error) → IsRegistered (err e, s)
  refused-IsRegistered e = record {
    owned = λ h. cc;
    guarded = λ t g up. inl g;
    others = λ k ne. refl;
  }

  kept-IsRegistered : get s.transports did ≡ some trans → IsRegistered (ok tt, s)
  kept-IsRegistered here = record {
    owned = λ h. here;
    guarded = λ t g up. inl g;
    others = λ k ne. refl;
  }

  put-IsRegistered :
      (r : Result (Unit {0}) × Swarm K Sk S C W)
      → r.1.transports ≡ put s.transports did trans
      → ((t : ℕ)
          → get s.transports did ≡ some t
          → is_connected env t s ≡ true
          → is_connected env trans s ≡ true)
      → IsRegistered r
  put-IsRegistered r e up = record {
    owned = λ h. ap (λ l. get l did) e ∙ get-put s.transports did did trans ∙ ground arith;
    guarded = λ t g c. inr (up t g c);
    others = λ k ne. ap (λ l. get l k) e ∙ get-put s.transports did k trans ∙ ground arith;
  }

  pub close-transports :
      (t : ℕ) (s' : Swarm K Sk S C W) → (close env t s').1.transports ≡ s'.transports
  unfolding close
  close-transports t s' = ground arith

  closed-transports :
      (r : Result (Unit {0}) × Swarm K Sk S C W)
      → (bound (caught r) (λ was_closed.
          if was_closed then done else raise swarm_to_close_prev_transport)).1.transports
        ≡ r.1.transports
  unfolding bound
  closed-transports (ok _, s') = refl
  closed-transports (err _, s') = refl
  closed-transports (panic, s') = refl

  replace-IsRegistered :
      (t : ℕ) → get s.transports did ≡ some t → IsRegistered (replace env did t trans s)
  unfolding replace bound
  replace-IsRegistered t g =
      elim (Bool-cases (is_connected env t s && not (is_connected env trans s))) [
        | inl e ↦ rw e (refused-IsRegistered invalid_transport)
        | inr e ↦ elim (Bool-cases (t == trans)) [
          | inl q ↦ rw (e, q) (kept-IsRegistered (g ∙ ap some ((==_iff t trans).0 q)))
          | inr q ↦
              rw (e, q)
                (put-IsRegistered _ (closed-transports (close env t _) ∙ close-transports t _)
                  (λ u h up. ground arith))
        ]
      ]

  -- Where `register` succeeds, the table holds the new transport under the identifier. It never lets a
  -- connected transport give way to one that is not connected, and leaves the others alone. A
  -- transport that is down is refused, with nothing changed.
  pub register_lem :
      IsRegistered (register env did trans s)
      × (is_disconnected env trans s ≡ true → register env did trans s ≡ (err invalid_transport, s))
  unfolding register bound get_transport
  register_lem = (
    elim (Bool-cases (is_disconnected env trans s)) [
      | inl e ↦ rw e (refused-IsRegistered invalid_transport)
      | inr e ↦ elim (Option-cases (get s.transports did)) [
        | inl g ↦ rw (e, g) (put-IsRegistered _ refl (λ u h up. absurd (none≢some (sym g ∙ h))))
        | inr (t, g) ↦ rw (e, g) (replace-IsRegistered t g)
      ]
    ],
    λ e. rw e refl,
  )
