-- ===== src/Swarm/Transports.antt =====
-- `TransportManager for Swarm` in rings-core/src/transports/manager.rs, and the tests on the state of a
-- transport in rings-core/src/transports/default/transport.rs. `MemStorage`, a concurrent map, is a list of
-- its entries: `set` writes in place or at the end.
pub mod Register
use rings_node.Base.{
  ℕ, Bool, true, false, not, ◌&&◌, Option, none, some, List, [], ◌∷◌, ◌==◌, length, map,
  if◌then◌else◌,
}
use rings_node.Error.{Result, ok, err, panic, invalid_transport, swarm_to_close_prev_transport}
use rings_node.Did.{Did}
use rings_node.Act.{Act, pure, raise, gets, modify, is_ok, done, ◌>>=◌}
use rings_node.Swarm.{Swarm, Rtc, Env, IceState, disconnected, failed, closed, connected, call}

module _ {A : Type 0} where
  -- `MemStorage::get`
  unfoldable pub get : List (Did × A) → Did → Option A
  get [] key = none
  get ((d, a) ∷ l) key = if d == key then some a else get l key

  -- `MemStorage::set`
  unfoldable pub put : List (Did × A) → Did → A → List (Did × A)
  put [] key v = (key, v) ∷ []
  put ((d, a) ∷ l) key v =
      let rest = put l key v in if d == key then (key, v) ∷ l else (d, a) ∷ rest

  -- `MemStorage::remove`
  unfoldable pub delete : List (Did × A) → Did → List (Did × A)
  delete [] key = []
  delete ((d, a) ∷ l) key = let rest = delete l key in if d == key then rest else (d, a) ∷ rest

  abbrev pub keys : List (Did × A) → List Did
  keys l = map (λ (e : Did × A). e.0) l

abbrev pub is_down : Option IceState → Bool
is_down (some failed) = true
is_down (some disconnected) = true
is_down (some closed) = true
is_down _ = false

abbrev pub is_up : Option IceState → Bool
is_up (some connected) = true
is_up _ = false

module _ {K Sk S C W : Type 0} where
  unfoldable pub get_transport : Did → Swarm K Sk S C W → Option ℕ
  get_transport did self = get self.transports did

  unfoldable pub get_transport_numbers : Swarm K Sk S C W → ℕ
  get_transport_numbers self = length self.transports

  unfoldable pub get_dids : Swarm K Sk S C W → List Did
  get_dids self = keys self.transports

  unfoldable pub get_transports : Swarm K Sk S C W → List (Did × ℕ)
  get_transports self = self.transports

  -- `self.transports.set`
  abbrev pub set_transport : Did → ℕ → Act (Swarm K Sk S C W) (Unit {0})
  set_transport did t = modify (λ self. record self { transports = put self.transports did t })

  unfoldable pub remove_transport : Did → Act (Swarm K Sk S C W) (Option (Did × ℕ))
  remove_transport did self = elim (get self.transports did) [
    | none ↦ (ok none, self)
    | some t ↦ (ok (some (did, t)), record self { transports = delete self.transports did })
  ]

  module _ (env : Env K Sk S C W) where
    unfoldable pub is_disconnected : ℕ → Swarm K Sk S C W → Bool
    is_disconnected t self = is_down (env.rtc.ice_connection_state self.world t)

    unfoldable pub is_connected : ℕ → Swarm K Sk S C W → Bool
    is_connected t self = is_up (env.rtc.ice_connection_state self.world t)

    -- `Transport::close`: without a peer connection there is nothing to close.
    unfoldable pub close : ℕ → Act (Swarm K Sk S C W) (Unit {0})
    close t self = elim (env.rtc.ice_connection_state self.world t) [
      | none ↦ (ok tt, self)
      | some _ ↦ call (λ w. env.rtc.close_connection w t) self
    ]

    unfoldable pub new_transport : Act (Swarm K Sk S C W) ℕ
    new_transport = call env.rtc.start

    -- `register` where `t` stands in the table
    unfoldable pub replace : Did → ℕ → ℕ → Act (Swarm K Sk S C W) (Unit {0})
    unfolding is_connected close
    replace did t trans = do
      up ← gets (is_connected t)
      new_up ← gets (is_connected trans)
      if up && not new_up then raise invalid_transport else if t == trans then done else (do
        _ ← set_transport did trans
        was_closed ← is_ok (close t)
        if was_closed then done else raise swarm_to_close_prev_transport)

    unfoldable pub register : Did → ℕ → Act (Swarm K Sk S C W) (Unit {0})
    unfolding is_disconnected get_transport replace
    register did trans = do
      down ← gets (is_disconnected trans)
      if down then raise invalid_transport else (do
        prev ← gets (get_transport did)
        elim prev [ none ↦ set_transport did trans | some t ↦ replace did t trans ])

    unfoldable pub get_and_check_transport : Did → Act (Swarm K Sk S C W) (Option ℕ)
    unfolding get_transport is_disconnected close
    get_and_check_transport did = do
      found ← gets (get_transport did)
      elim found [
        | none ↦ pure none
        | some t ↦ do
          down ← gets (is_disconnected t)
          if down then (do _ ← is_ok (close t); pure none) else pure (some t)
      ]
