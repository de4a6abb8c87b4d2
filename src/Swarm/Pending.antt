-- ===== src/Swarm/Pending.antt =====
-- The pending transports of rings-core/src/swarm.rs: opened, and not yet in the table.
use rings_node.Base.{ℕ, Option, none, some, List, [], ◌∷◌, ◌++◌, ◌==◌, if◌then◌else◌}
use rings_node.Error.{ok, err, swarm_pending_trans_try_lock_failed, swarm_pending_trans_not_found}
use rings_node.Act.{Act, pure, raise, modify, ◌>>=◌}
use rings_node.Swarm.{Swarm}

-- `pending.iter().find(|x| x.id.eq(&id))`
unfoldable pub find : List ℕ → ℕ → Option ℕ
find [] id = none
find (x ∷ xs) id = if x == id then some x else find xs id

-- `pending.remove(position)`: the first of that identifier goes.
unfoldable pub remove_first : List ℕ → ℕ → List ℕ
remove_first [] id = []
remove_first (x ∷ xs) id = let rest = remove_first xs id in if x == id then xs else x ∷ rest

module _ {K Sk S C W : Type 0} where
  -- `try_lock`
  abbrev pub try_lock : Act (Swarm K Sk S C W) (List ℕ)
  try_lock self =
      if self.pending_held
      then (err swarm_pending_trans_try_lock_failed, self)
      else (ok self.pending, self)

  abbrev pub set_pending : List ℕ → Act (Swarm K Sk S C W) (Unit {0})
  set_pending l = modify (λ self. record self { pending = l })

  unfoldable pub push_pending_transport : ℕ → Act (Swarm K Sk S C W) (Unit {0})
  push_pending_transport transport = do pending ← try_lock; set_pending (pending ++ transport ∷ [])

  unfoldable pub pop_pending_transport : ℕ → Act (Swarm K Sk S C W) (Unit {0})
  unfolding find remove_first
  pop_pending_transport transport_id = do
    pending ← try_lock
    elim (find pending transport_id) [
      | none ↦ raise swarm_pending_trans_not_found
      | some _ ↦ set_pending (remove_first pending transport_id)
    ]

  unfoldable pub pending_transports : Act (Swarm K Sk S C W) (List ℕ)
  pending_transports = try_lock

  unfoldable pub find_pending_transport : ℕ → Act (Swarm K Sk S C W) (Option ℕ)
  unfolding find
  find_pending_transport id = do pending ← try_lock; pure (find pending id)
