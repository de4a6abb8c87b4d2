-- ===== src/Rpc/Replies.antt =====
-- How the methods of src/jsonrpc/server.rs read their parameters and reply. serde_json, base64 and the receiver of custom
-- messages are the record `Json`, a parameter, over any types of parameters and values; a `Reply` is what is then
-- put into JSON.
use rings_node.Base.{
  ℕ, Bool, false, not, ◌||◌, Option, none, some, List, [], ◌∷◌, String, get_elem?, head?, ◌==◌,
  if◌then◌else◌,
}
use rings_node.Error.{Error, Result, ok, err, panic, no_permission, invalid_params}
use rings_node.Did.{Did}
use rings_node.VNode.{Encoded}
use rings_node.Act.{Act, pure, raise, done, or_raise, ◌>>=◌}
use rings_node.Swarm.{Swarm, Env, IceState}
use rings_node.Backend.{BackendMessage, HttpRequest}

-- `SeedPeer` and `Seed` of src/seed.rs
pub record SeedPeer : Type 0 where
  pub did : Did
  pub endpoint : String

pub record Json (P V W : Type 0) : Type 0 where
  pub parse_strings : P → Option (List String)
  pub parse_values : P → Option (List V)
  pub parse_fields : P → Option (String → Option V)
  pub parse_seeds : P → Option (List (List SeedPeer))
  pub as_str : V → Option String
  pub as_u64 : V → Option ℕ
  -- `as_i64`, and the cast to `usize`
  pub as_usize : V → Option ℕ
  pub as_bool : V → Option Bool
  pub as_request : V → Option HttpRequest
  pub base64_decode : String → Option (List ℕ)
  pub as_bytes : String → List ℕ
  pub encode : String → Option Encoded
  pub decode : Encoded → Option String
  pub serialize_request : HttpRequest → Result (List ℕ)
  -- `recv` where the request asks to wait, and `try_recv` otherwise
  pub receive : W → Bool → Option BackendMessage × W

pub data Reply : Type 0 where
  null empty_object : Reply
  transport_id : ℕ → Reply
  transport_and_ice : ℕ → String → Reply
  peer : Did → ℕ → Option IceState → Reply
  peers : List (Did × ℕ × Option IceState) → Reply
  transport_infos : List (ℕ × Option IceState) → Reply
  tx_id : ℕ → Reply
  texts : List String → Reply
  polled : Option BackendMessage → Reply

-- `v.decode()`, where it does not fail
abbrev pub decoded : (Encoded → Option String) → List Encoded → List String
decoded decode [] = []
decoded decode (e ∷ es) = elim (decode e) [
  | none ↦ decoded decode es
  | some t ↦ t ∷ decoded decode es
]

-- `split_at(2)`, which panics on fewer than two
abbrev pub first_two : List String → Result (String × String)
first_two (a ∷ b ∷ _) = ok (a, b)
first_two _ = panic

abbrev pub is_member : List Did → Did → Bool
is_member [] d = false
is_member (x ∷ xs) d = x == d || is_member xs d

module _ {K Sk S C W : Type 0} where
  -- `require_authed`
  abbrev pub require_authed : Bool → Act (Swarm K Sk S C W) (Unit {0})
  require_authed is_auth = if not is_auth then raise no_permission else done

  -- The first error stays, whatever comes of the others.
  abbrev pub first_error :
      Error → Result (Unit {0}) × Swarm K Sk S C W → Result (Unit {0}) × Swarm K Sk S C W
  first_error e (ok _, self) = (err e, self)
  first_error e (err _, self) = (err e, self)
  first_error e (panic, self) = (panic, self)

  -- One task, and the others after it.
  abbrev pub attempted :
      Result ℕ × Swarm K Sk S C W
      → Act (Swarm K Sk S C W) (Unit {0})
      → Result (Unit {0}) × Swarm K Sk S C W
  attempted (ok _, self) others = others self
  attempted (err e, self) others = first_error e (others self)
  attempted (panic, self) others = (panic, self)

  abbrev pub parsed : {A : Type 0} → Option A → Act (Swarm K Sk S C W) A
  parsed o = or_raise o invalid_params

  abbrev pub replies :
      {A : Type 0} → Act (Swarm K Sk S C W) A → (A → Reply) → Act (Swarm K Sk S C W) Reply
  replies m f = do a ← m; pure (f a)

module _ {K Sk S C W : Type 0} (env : Env K Sk S C W) where
  abbrev pub state_of : Swarm K Sk S C W → ℕ → Option IceState
  state_of self t = env.rtc.ice_connection_state self.world t

module _ {K Sk S C W P V : Type 0} (js : Json P V W) where
  -- `params.parse()?` and the first of them
  abbrev pub first_string : P → Act (Swarm K Sk S C W) String
  first_string params = do p ← parsed (js.parse_strings params); parsed (head? p)

  abbrev pub text_at : List V → ℕ → Act (Swarm K Sk S C W) String
  text_at l i = do v ← parsed (get_elem? l i); parsed (js.as_str v)
