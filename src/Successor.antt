-- ===== src/Successor.antt =====
-- SuccessorSeq of rings-core/src/dht/successor.rs: the next nodes clockwise, nearest first.
pub mod Invariant
pub mod Nearest
mod Examples
use rings_node.Base.{
  ℕ, ◌%◌, ◌^◌, ◌-◌, Bool, true, false, ◌||◌, List, [], ◌∷◌, ◌++◌, leb, ◌==◌, not, if◌then◌else◌,
  length, take, retain, head?, last?, Option, none, some,
}
use rings_node.Did.{Did, sort}

pub record SuccessorSeq : Type 0 where
  pub did : Did
  -- Declared `max: u8`.
  pub max_num : ℕ
  pub successors : List Did

unfoldable pub new : Did → ℕ → SuccessorSeq
new did max_num = record { did = did; max_num = max_num; successors = [] }

unfoldable pub is_empty : SuccessorSeq → Bool
is_empty self = length self.successors == 0

-- `self.successors.len() as u8 >= self.max`
unfoldable pub is_full : SuccessorSeq → Bool
is_full self = leb self.max_num (length self.successors % 2 ^ 8)

abbrev pub or_self : Did → Option Did → Did
or_self did none = did
or_self did (some d) = d

-- `min`: the first of the sequence, or the node itself.
unfoldable pub min_did : SuccessorSeq → Did
min_did self = or_self self.did (head? self.successors)

-- `max`: the last of the sequence, or the node itself.
unfoldable pub max_did : SuccessorSeq → Did
max_did self = or_self self.did (last? self.successors)

-- `Vec::contains`
unfoldable pub contains : Did → List Did → Bool
contains d [] = false
contains d (x ∷ xs) = x == d || contains d xs

unfoldable pub update : SuccessorSeq → Did → SuccessorSeq
update self successor =
    if contains successor self.successors || successor == self.did then self else record self {
      successors = take self.max_num (sort (self.successors ++ successor ∷ []) self.did);
    }

unfoldable pub list : SuccessorSeq → List Did
list self = self.successors

unfoldable pub remove : SuccessorSeq → Did → SuccessorSeq
remove self did = record self { successors = retain (λ v. not (v == did)) self.successors }
