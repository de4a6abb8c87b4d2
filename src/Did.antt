-- ===== src/Did.antt =====
-- Did of rings-core/src/dht/did.rs: the ring of 160-bit identifiers, and identifiers seen from
-- an origin (`BiasId`). A `Did` wraps an `H160`, which is read as its big-endian value: the order of
-- `H160` is the order of the numbers. `IsDid` is the range that 20 bytes give.
pub mod Ring
pub mod Order
pub mod Sort
mod Examples
use rings_node.Base.{
  ℕ, ◌+◌, ◌-◌, ◌%◌, ◌^◌, ◌<◌, Bool, true, false, ◌&&◌, List, ltb, ◌==◌, if◌then◌else◌, sort_by,
}
use Prim.Native.Nat.{compare, Ordering}

abbrev pub Did : Type 0
Did = ℕ

-- 2 ^ 160
abbrev pub ring_size : ℕ
ring_size = 2 ^ 160

abbrev pub IsDid : Did → Type 0
IsDid d = d < ring_size

-- `From<BigUint>`
unfoldable pub from_big_uint : ℕ → Did
from_big_uint a = a % ring_size

-- `Neg`
unfoldable pub neg : Did → Did
unfolding from_big_uint
neg d = from_big_uint (ring_size - d)

-- `Add`
unfoldable pub add : Did → Did → Did
unfolding from_big_uint
add a b = from_big_uint ((a + b) % ring_size)

-- `Sub`
unfoldable pub sub : Did → Did → Did
unfolding add neg
sub a b = add a (neg b)

pub record BiasId : Type 0 where
  pub bias : Did
  pub did : Did

-- `BiasId::new(bias, did)`
unfoldable pub new_bias : Did → Did → BiasId
new_bias bias did = record { bias = bias; did = sub did bias }

-- `BiasId::to_did`, and the two `From<BiasId>`
unfoldable pub to_did : BiasId → Did
to_did b = add b.did b.bias

-- `BiasId::pos`
abbrev pub pos : BiasId → Did
pos b = b.did

-- `Ord::cmp` and `PartialOrd::partial_cmp` of `BiasId`: the other is first seen from `self.bias`.
unfoldable pub cmp : BiasId → BiasId → Ordering
cmp self other =
    if other.bias == self.bias
    then compare self.did other.did
    else compare self.did (new_bias self.bias (to_did other)).did

-- `<` on `BiasId`
unfoldable pub bias_lt : BiasId → BiasId → Bool
bias_lt a b = elim (cmp a b) [ Ordering.lt ↦ true | _ ↦ false ]

-- `<=` on `BiasId`
unfoldable pub bias_le : BiasId → BiasId → Bool
bias_le a b = elim (cmp a b) [ Ordering.gt ↦ false | _ ↦ true ]

-- `PartialEq<Did> for BiasId`
unfoldable pub bias_eq : BiasId → Did → Bool
bias_eq b rhs = to_did b == rhs

-- `Did::in_range`
unfoldable pub in_range : Did → Did → Did → Did → Bool
in_range self base_id a b =
    ltb (sub a base_id) (sub self base_id) && ltb (sub self base_id) (sub b base_id)

-- `Did::bias`
unfoldable pub bias_of : Did → Did → BiasId
bias_of self did = new_bias did self

-- `SortRing::sort for Vec<Did>`
unfoldable pub sort : List Did → Did → List Did
sort dids did = sort_by (λ a. sub a did) dids
