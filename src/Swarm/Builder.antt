-- ===== src/Swarm/Builder.antt =====
-- `SwarmBuilder` of rings-core/src/swarm.rs. The parsing of the ICE servers is left to the state of the
-- transports, which `build` takes with an empty cache.
use rings_node.Base.{ℕ, Bool, true, false, Option, none, some, []}
use rings_node.Error.{Result, ok, err, ◌>>=◌, swarm_build_failed}
use rings_node.Did.{Did}
use rings_node.Chord.{new_with_storage}
use rings_node.Session.{Ttl, ok_or}
use rings_node.Session.Manager.{SessionManager, new_with_seckey}
use rings_node.Swarm.{Swarm, Env}

-- The key and its address, the session manager, and the rest. `dht_succ_max` is a `u8`.
pub record SwarmBuilder (K Sk S : Type 0) : Type 0 where
  pub key_opt : Option Sk
  pub dht_did : Option Did
  pub succ_max : ℕ
  pub dht_storage : S
  pub manager : Option (SessionManager K Sk)
  pub ttl : Option Ttl
  pub is_measured : Bool

module _ {K Sk S : Type 0} where
  abbrev pub new_builder : S → SwarmBuilder K Sk S
  new_builder dht_storage = record {
    key_opt = none;
    dht_did = none;
    succ_max = 3;
    dht_storage = dht_storage;
    manager = none;
    ttl = none;
    is_measured = false;
  }

  abbrev pub dht_succ_max : ℕ → SwarmBuilder K Sk S → SwarmBuilder K Sk S
  dht_succ_max n self = record self { succ_max = n }

  abbrev pub session_ttl : Ttl → SwarmBuilder K Sk S → SwarmBuilder K Sk S
  session_ttl t self = record self { ttl = some t }

  abbrev pub measure : SwarmBuilder K Sk S → SwarmBuilder K Sk S
  measure self = record self { is_measured = true }

  abbrev pub session_manager : Did → SessionManager K Sk → SwarmBuilder K Sk S → SwarmBuilder K Sk S
  session_manager did m self = record self { manager = some m; dht_did = some did }

module _ {K Sk S C W : Type 0} (env : Env K Sk S C W) where
  abbrev pub key : Sk → SwarmBuilder K Sk S → SwarmBuilder K Sk S
  key k self = record self { key_opt = some k; dht_did = some (env.key_signer.address k) }

  -- The session manager that was set, or one for the key; `random` is the key of a new session.
  unfoldable pub manager_of : SwarmBuilder K Sk S → Sk → W → Result (SessionManager K Sk)
  manager_of self random w = elim self.manager [
    | some m ↦ ok m
    | none ↦ elim self.key_opt [
      | some k ↦ new_with_seckey env.key_signer env.signers random (env.rtc.now w) k self.ttl
      | none ↦ err swarm_build_failed
    ]
  ]

  unfoldable pub build : SwarmBuilder K Sk S → Sk → C → W → Result (Swarm K Sk S C W)
  unfolding manager_of
  build self random cache w = do
    m ← manager_of self random w
    did ← ok_or self.dht_did (err swarm_build_failed)
    ok (record {
      pending = [];
      pending_held = false;
      transports = [];
      dht = new_with_storage did self.succ_max self.dht_storage cache;
      measured = self.is_measured;
      session_manager = m;
      world = w;
    })
