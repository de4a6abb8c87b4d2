-- ===== src/VNode.antt =====
-- VirtualNode of rings-core/src/dht/vnode.rs and Subring of rings-core/src/dht/subring.rs. What the
-- code calls in other crates (sha1, the hex parser of `H160`, base58 and serde_json) is a `Codec`, a
-- parameter. `Encoded` wraps a `String` and is read as one.
pub mod Extend
pub mod Operate
pub mod SubringJoin
mod Examples
use text.Mathlib.Text.{◌==◌ as str_eq}
use rings_node.Base.{
  ℕ, ◌+◌, ◌-◌, ◌*◌, Bool, true, false, ◌||◌, List, [], ◌∷◌, ◌++◌, not, if◌then◌else◌, length, drop,
  retain, String, ◌==◌,
}
use rings_node.Error.{
  Result, ok, err, panic, ◌>>=◌, bad_c_hex_in_cache, serialize_to_string, deserialize,
  vnode_not_overwritable, vnode_not_appendable, vnode_not_joinable, vnode_kind_not_equal,
  vnode_did_not_equal, invalid_vnode_type,
}
use rings_node.Did.{Did}
use rings_node.Finger.{FingerTable}
use rings_node.Finger

-- `VNODE_DATA_MAX_LEN` of rings-core/src/consts.rs
abbrev pub vnode_data_max_len : ℕ
vnode_data_max_len = 1024

pub data VNodeType : Type 0 where
  data_type subring relay_message : VNodeType

abbrev pub kind_eq : VNodeType → VNodeType → Bool
kind_eq data_type data_type = true
kind_eq subring subring = true
kind_eq relay_message relay_message = true
kind_eq _ _ = false

abbrev pub Encoded : Type 0
Encoded = String

pub record VirtualNode : Type 0 where
  pub did : Did
  pub payload : List Encoded
  pub kind : VNodeType

pub data VNodeOperation : Type 0 where
  overwrites extends touches : VirtualNode → VNodeOperation
  joins_subring : String → Did → VNodeOperation

pub record Subring : Type 0 where
  pub name : String
  pub finger : FingerTable
  pub creator : Did

-- The calls into other crates.
pub record Codec : Type 0 where
  -- `HashStr::from`: sha1 in hex.
  pub hash : String → String
  -- `H160::from_str`
  pub h160_from_str : String → Result Did
  -- `base58_monero::decode_check` and `String::from_utf8`
  pub decode_string : Encoded → Result String
  -- `serde_json::to_string` and `serde_json::from_str`
  pub to_json : Subring → Result String
  pub from_json : String → Result Subring

-- `map_err`
abbrev pub map_err {ℓ} : {A : Type ℓ} → Result A → Result A → Result A
map_err (ok a) e = ok a
map_err (err _) e = e
map_err panic e = panic

unfoldable pub contains : List Encoded → Encoded → Bool
contains [] e = false
contains (x ∷ xs) e = str_eq x e || contains xs e

-- `max(0, (a + b) as i64 - VNODE_DATA_MAX_LEN as i64) as usize`: subtraction that stops at 0.
abbrev pub trim_num : ℕ → ℕ → ℕ
trim_num a b = a + b - vnode_data_max_len

unfoldable pub overwrite : VirtualNode → VirtualNode → Result VirtualNode
overwrite self other =
    if not (kind_eq self.kind data_type)
    then err vnode_not_overwritable
    else if not (kind_eq self.kind other.kind)
    then err vnode_kind_not_equal
    else if not (self.did == other.did)
    then err vnode_did_not_equal
    else ok other

unfoldable pub extend : VirtualNode → VirtualNode → Result VirtualNode
extend self other =
    if not (kind_eq self.kind data_type)
    then err vnode_not_appendable
    else if not (kind_eq self.kind other.kind)
    then err vnode_kind_not_equal
    else if not (self.did == other.did)
    then err vnode_did_not_equal
    else ok (record {
      did = self.did;
      payload =
          drop (trim_num (length self.payload) (length other.payload)) self.payload
          ++ other.payload;
      kind = self.kind;
    })

-- The data of `self` that `other` does not repeat.
abbrev pub remains : VirtualNode → VirtualNode → List Encoded
remains self other = retain (λ e. not (contains other.payload e)) self.payload

unfoldable pub touch : VirtualNode → VirtualNode → Result VirtualNode
touch self other =
    if not (kind_eq self.kind data_type)
    then err vnode_not_appendable
    else if not (kind_eq self.kind other.kind)
    then err vnode_kind_not_equal
    else if not (self.did == other.did)
    then err vnode_did_not_equal
    else let kept = remains self other in
      ok (record {
        did = self.did;
        payload = drop (trim_num (length kept) (length other.payload)) kept ++ other.payload;
        kind = self.kind;
      })

module _ (c : Codec) where
  -- `VirtualNode::gen_did`; the hex error becomes `BadCHexInCache` in `Did::from_str`.
  unfoldable pub gen_did : String → Result Did
  gen_did topic = map_err (c.h160_from_str (c.hash topic)) (err bad_c_hex_in_cache)

  -- `Subring::new`
  unfoldable pub new_subring : String → Did → Result Subring
  new_subring name creator = do
    did ← gen_did name
    ok (record { name = name; finger = Finger.new did 1; creator = creator })

  -- `TryFrom<Subring> for VirtualNode`
  unfoldable pub vnode_of_subring : Subring → Result VirtualNode
  vnode_of_subring ring = do
    json ← map_err (c.to_json ring) (err serialize_to_string)
    did ← gen_did ring.name
    ok (record { did = did; payload = json ∷ []; kind = subring })

  -- `TryFrom<(String, Encoded)> for VirtualNode`
  unfoldable pub vnode_of_topic : String → Encoded → Result VirtualNode
  vnode_of_topic topic e = do
    did ← gen_did topic
    ok (record { did = did; payload = e ∷ []; kind = data_type })

  -- `vnode.data[0].decode()`
  unfoldable pub decode_first : List Encoded → Result String
  decode_first [] = panic
  decode_first (e ∷ _) = c.decode_string e

  -- `TryFrom<VirtualNode> for Subring`
  unfoldable pub subring_of_vnode : VirtualNode → Result Subring
  subring_of_vnode vnode =
      if kind_eq vnode.kind subring
      then (do
        decoded ← decode_first vnode.payload
        map_err (c.from_json decoded) (err deserialize))
      else err invalid_vnode_type

  -- `VNodeOperation::did`
  unfoldable pub op_did : VNodeOperation → Result Did
  op_did (overwrites v) = ok v.did
  op_did (extends v) = ok v.did
  op_did (touches v) = ok v.did
  op_did (joins_subring name _) = gen_did name

  -- `VNodeOperation::gen_default_vnode`
  unfoldable pub gen_default_vnode : VNodeOperation → Result VirtualNode
  gen_default_vnode (joins_subring name did) = do ring ← new_subring name did; vnode_of_subring ring
  gen_default_vnode (overwrites v) = ok (record { did = v.did; payload = []; kind = v.kind })
  gen_default_vnode (extends v) = ok (record { did = v.did; payload = []; kind = v.kind })
  gen_default_vnode (touches v) = ok (record { did = v.did; payload = []; kind = v.kind })

  unfoldable pub join_subring : VirtualNode → Did → Result VirtualNode
  join_subring self did = if not (kind_eq self.kind subring) then err vnode_not_joinable else do
    ring ← subring_of_vnode self
    finger ← Finger.join ring.finger did
    vnode_of_subring (record ring { finger = finger })

  unfoldable pub operate : VirtualNode → VNodeOperation → Result VirtualNode
  operate self (overwrites v) = overwrite self v
  operate self (extends v) = extend self v
  operate self (touches v) = touch self v
  operate self (joins_subring _ did) = join_subring self did

-- `VNodeOperation::kind`
unfoldable pub op_kind : VNodeOperation → VNodeType
op_kind (overwrites v) = v.kind
op_kind (extends v) = v.kind
op_kind (touches v) = v.kind
op_kind (joins_subring _ _) = subring
