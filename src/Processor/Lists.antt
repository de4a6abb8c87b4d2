-- ===== src/Processor/Lists.antt =====
-- What the handshakes do to the pending transports and to the table.
use rings_node.Base.{
  ℕ, ◌≡◌, refl, ap, sym, ◌∙◌, subst, not, ◌&&◌, ◌==◌, inl, inr, Bool, true, false, Bool-cases,
  Option, none, some, List, [], ◌∷◌, if◌then◌else◌, arith,
}
use rings_node.Error.{
  err≢ok, Result, ok, err, ok-inj, swarm_pending_trans_try_lock_failed,
  swarm_pending_trans_not_found,
}
use rings_node.Did.{Did}
use rings_node.Act.{Act, bound, raise, is_ok, caught, pure}
use rings_node.Act.Keeps.{Keeps, keeps, after, bind-Keeps, if-Keeps, option-Keeps, is_ok-Keeps}
use rings_node.Swarm.{Swarm, Env}
use rings_node.Swarm.Transports.{get, close, register, replace}
use rings_node.Swarm.Transports.Register.{register_lem}
use rings_node.Swarm.Pending.{
  find, set_pending, remove_first, pop_pending_transport, find_pending_transport,
}

-- The pending transports are `p`, and `h` says whether their mutex is held.
abbrev pub Pends : {K Sk S C W : Type 0} → List ℕ → Bool → Swarm K Sk S C W → Type 0
Pends p h s = (s.pending ≡ p) × (s.pending_held ≡ h)

module _ {K Sk S C W : Type 0} (env : Env K Sk S C W) (p : List ℕ) (h : Bool) where
  pub close-Pends : (t : ℕ) → Keeps (Pends p h) (close env t)
  unfolding Keeps close
  close-Pends t s q = ground arith

  replace-Pends : (d : Did) (t new : ℕ) → Keeps (Pends p h) (replace env d t new)
  unfolding replace
  replace-Pends d t new = bind-Keeps (Pends p h) _ _ (keeps (Pends p h) _ (λ s q. q)) λ up.
      bind-Keeps (Pends p h) _ _ (keeps (Pends p h) _ (λ s q. q)) λ new_up.
        if-Keeps (Pends p h) (up && not new_up) _ _ (keeps (Pends p h) _ (λ s q. q)) (
          if-Keeps (Pends p h) (t == new) _ _ (keeps (Pends p h) _ (λ s q. q)) (
            bind-Keeps (Pends p h) _ _ (keeps (Pends p h) _ (λ s q. q)) λ _.
              bind-Keeps (Pends p h) _ _ (is_ok-Keeps (Pends p h) _ (close-Pends t)) λ b.
                if-Keeps (Pends p h) b _ _ (keeps (Pends p h) _ (λ s q. q))
                  (keeps (Pends p h) _ (λ s q. q))))

  pub register-Pends : (d : Did) (t : ℕ) → Keeps (Pends p h) (register env d t)
  unfolding register
  register-Pends d t = bind-Keeps (Pends p h) _ _ (keeps (Pends p h) _ (λ s q. q)) λ down.
      if-Keeps (Pends p h) down _ _ (keeps (Pends p h) _ (λ s q. q)) (
        bind-Keeps (Pends p h) _ _ (keeps (Pends p h) _ (λ s q. q)) λ prev.
          option-Keeps (Pends p h) prev _ _ (keeps (Pends p h) _ (λ s q. q))
            (λ old. replace-Pends d old t))

pub find-same : (l : List ℕ) (id t : ℕ) → find l id ≡ some t → t ≡ id
unfolding find
find-same [] id t e = cc
find-same (x ∷ l) id t e = elim (Bool-cases (x == id)) [
  | inl q ↦ let r = rw q at e in ground arith
  | inr q ↦ find-same l id t (rw q at e)
]

module _ {K Sk S C W : Type 0} where
  locked_find :
      (b : Bool) (id : ℕ) (o : Option ℕ) (s s' : Swarm K Sk S C W)
      → bound
          (if b then (err swarm_pending_trans_try_lock_failed, s) else (ok s.pending, s))
          (λ pending. pure (find pending id))
        ≡ (ok o, s')
      → (s ≡ s') × (b ≡ false) × (find s.pending id ≡ o)
  unfolding bound
  locked_find true id o s s' e =
      absurd (err≢ok (ap (λ (r : Result (Option ℕ) × Swarm K Sk S C W). r.0) e))
  locked_find false id o s s' e = (
    ap (λ (r : Result (Option ℕ) × Swarm K Sk S C W). r.1) e,
    refl,
    ok-inj (ap (λ (r : Result (Option ℕ) × Swarm K Sk S C W). r.0) e),
  )

  pub find_pending_ok :
      (id : ℕ) (o : Option ℕ) (s s' : Swarm K Sk S C W)
      → find_pending_transport id s ≡ (ok o, s')
      → (s ≡ s') × (s.pending_held ≡ false) × (find s.pending id ≡ o)
  unfolding find_pending_transport
  find_pending_ok id o s s' e = locked_find s.pending_held id o s s' e

  removed :
      (o : Option ℕ) (id : ℕ) (l : List ℕ) (s : Swarm K Sk S C W)
      → o ≡ some id
      → (caught (
          (elim o as (λ _. Act (Swarm K Sk S C W) (Unit {0})) [
            | none ↦ raise swarm_pending_trans_not_found
            | some _ ↦ set_pending l
          ])
            s)).1.pending
        ≡ l
  removed none id l s e = cc
  removed (some x) id l s e = refl

  locked_pop :
      (b : Bool) (id : ℕ) (s : Swarm K Sk S C W)
      → b ≡ false
      → find s.pending id ≡ some id
      → (caught (
          bound
            (if b then (err swarm_pending_trans_try_lock_failed, s) else (ok s.pending, s))
            (λ pending. elim (find pending id) as (λ _. Act (Swarm K Sk S C W) (Unit {0})) [
              | none ↦ raise swarm_pending_trans_not_found
              | some _ ↦ set_pending (remove_first pending id)
            ]))).1.pending
        ≡ remove_first s.pending id
  unfolding bound
  locked_pop true id s e f = cc
  locked_pop false id s e f = removed (find s.pending id) id (remove_first s.pending id) s f

  popped :
      (id : ℕ) (p : List ℕ) (s : Swarm K Sk S C W)
      → Pends p false s
      → find p id ≡ some id
      → (is_ok (pop_pending_transport id) s).1.pending ≡ remove_first p id
  unfolding pop_pending_transport
  popped id p s q f =
      locked_pop s.pending_held id s q.1 (subst (λ l. find l id ≡ some id) (sym q.0) f)
      ∙ ap (λ l. remove_first l id) q.0

  pop-transports :
      (id : ℕ) (s : Swarm K Sk S C W)
      → (is_ok (pop_pending_transport id) s).1.transports ≡ s.transports
  unfolding pop_pending_transport bound
  pop-transports id s = ground arith

abbrev pub IsSettled : {K Sk S C W : Type 0} → List ℕ → Did → ℕ → Swarm K Sk S C W → Type 0
IsSettled p did t s' =
    (find p t ≡ some t) × (get s'.transports did ≡ some t) × (s'.pending ≡ remove_first p t)

module _ {K Sk S C W : Type 0} (env : Env K Sk S C W) (p : List ℕ) (d : Did) (u : ℕ)
    (here : find p u ≡ some u) where
  -- The registration: the transport is in the table under the identifier.
  pub registered :
      (s s1 : Swarm K Sk S C W)
      → Pends p false s
      → register env d u s ≡ (ok tt, s1)
      → (get s1.transports d ≡ some u) × Pends p false s1
  registered s s1 pends q = (
    subst (λ (r : Result (Unit {0}) × Swarm K Sk S C W). get r.1.transports d ≡ some u) q
        ((register_lem env d u s).0.owned
          (ap (λ (r : Result (Unit {0}) × Swarm K Sk S C W). r.0) q)),
    subst (λ (r : Result (Unit {0}) × Swarm K Sk S C W). Pends p false r.1) q
        (after (Pends p false) (register env d u) (register-Pends env p false d u) s pends),
  )

  -- The rest: it is no longer pending.
  pub settled :
      (s1 s2 : Swarm K Sk S C W) (b : Bool)
      → (get s1.transports d ≡ some u) × Pends p false s1
      → is_ok (pop_pending_transport u) s1 ≡ (ok b, s2)
      → IsSettled p d u s2
  settled s1 s2 b r q =
      subst (λ (r : Result Bool × Swarm K Sk S C W). IsSettled p d u r.1) q
        (here, ap (λ l. get l d) (pop-transports u s1) ∙ r.0, popped u p s1 r.1 here)
