-- ===== src/Chunk.antt =====
-- rings-core/src/chunk.rs: messages cut into chunks, and the pool that puts them together again. A `Bytes`
-- is a list of numbers, an identifier a number. `now` is what `get_epoch_ms` gives. A `u128` has 128
-- bits: sums and differences of times wrap.
pub mod Split
pub mod Order
pub mod Repeats
pub mod Whole
pub mod Arrival
pub mod Handle
pub mod Listing
mod Examples
use rings_node.Base.{
  ℕ, zero, suc, ◌+◌, ◌-◌, ◌*◌, ◌%◌, ◌^◌, Bool, true, false, not, ◌&&◌, Option, none, some, List, [],
  ◌∷◌, ◌++◌, length, take, drop, retain, sort_by, ltb, ◌==◌, if◌then◌else◌,
}
use rings_node.Error.{Result, ok, panic}

-- `MAX_TTL_MS` and `TS_OFFSET_TOLERANCE_MS` of rings-core/src/consts.rs
abbrev pub max_ttl_ms : ℕ
max_ttl_ms = 300 * 1000 * 10

abbrev pub ts_offset_tolerance_ms : ℕ
ts_offset_tolerance_ms = 3000

pub record ChunkMeta : Type 0 where
  pub id : ℕ
  pub ts_ms : ℕ
  pub ttl_ms : ℕ

-- `chunk` is the position and the number of chunks.
pub record Chunk : Type 0 where
  pub index : ℕ
  pub total : ℕ
  pub bytes : List ℕ
  pub meta : ChunkMeta

-- `PartialEq`
unfoldable pub tx_eq : Chunk → Chunk → Bool
tx_eq a b = a.meta.id == b.meta.id && a.total == b.total

-- `[T]::chunks`, with the rounds left.
unfoldable pub chunks_of : ℕ → ℕ → List ℕ → List (List ℕ)
chunks_of zero mtu bytes = []
chunks_of (suc n) mtu [] = []
chunks_of (suc n) mtu (b ∷ bytes) = take mtu (b ∷ bytes) ∷ chunks_of n mtu (drop mtu (b ∷ bytes))

unfoldable pub number : ChunkMeta → ℕ → ℕ → List (List ℕ) → List Chunk
number meta total i [] = []
number meta total i (d ∷ ds) =
    record { index = i; total = total; bytes = d; meta = meta } ∷ number meta total (i + 1) ds

-- `From<&Bytes>`; a size of 0 panics.
unfoldable pub from_bytes : ℕ → ChunkMeta → List ℕ → Result (List Chunk)
unfolding chunks_of number
from_bytes mtu meta bytes =
    if mtu == 0
    then panic
    else let chunks = chunks_of (length bytes) mtu bytes in
      ok (number meta (length chunks) 0 chunks)

-- `dedup_by_key`: of neighbours with one index the first stays; `i` is the index that stayed last.
unfoldable pub dedup_from : ℕ → List Chunk → List Chunk
dedup_from i [] = []
dedup_from i (c ∷ cs) =
    let kept = dedup_from c.index cs in
    let dropped = dedup_from i cs in if c.index == i then dropped else c ∷ kept

unfoldable pub dedup : List Chunk → List Chunk
unfolding dedup_from
dedup [] = []
dedup (c ∷ cs) = c ∷ dedup_from c.index cs

unfoldable pub formalize : List Chunk → List Chunk
formalize self = sort_by (λ c. c.index) (dedup self)

unfoldable pub search : List Chunk → ℕ → List Chunk
search self id = formalize (retain (λ e. e.meta.id == id) self)

-- `!chunks.is_empty() && chunks.len() == chunks.first().unwrap().chunk[1]`
abbrev pub is_full : List Chunk → Bool
is_full [] = false
is_full (c ∷ cs) = length (c ∷ cs) == c.total

unfoldable pub is_completed : List Chunk → Bool
is_completed self = is_full (formalize self)

abbrev pub concat : List Chunk → List ℕ
concat [] = []
concat (c ∷ cs) = c.bytes ++ concat cs

unfoldable pub try_withdraw : List Chunk → Option (List ℕ)
try_withdraw self = if not (is_completed self) then none else some (concat (formalize self))

unfoldable pub get : List Chunk → ℕ → Option (List ℕ)
get self id = try_withdraw (search self id)

unfoldable pub remove : List Chunk → ℕ → List Chunk
remove self id = retain (λ e. not (e.meta.id == id)) self

unfoldable pub remove_expired : ℕ → List Chunk → List Chunk
remove_expired now self = retain (λ e. ltb now ((e.meta.ts_ms + e.meta.ttl_ms) % 2 ^ 128)) self

-- The pool after the withdrawal of `id`, if there is something to withdraw.
abbrev pub withdrawn : List Chunk → ℕ → Option (List ℕ) → List Chunk × Option (List ℕ)
withdrawn self id none = (self, none)
withdrawn self id (some d) = (remove self id, some d)

unfoldable pub handle : ℕ → List Chunk → Chunk → List Chunk × Option (List ℕ)
handle now self chunk =
    if ltb max_ttl_ms chunk.meta.ttl_ms
    then (self, none)
    else if ltb now ((chunk.meta.ts_ms + 2 ^ 128 - ts_offset_tolerance_ms) % 2 ^ 128)
    then (self, none)
    else let pool = remove_expired now (self ++ chunk ∷ []) in
      withdrawn pool chunk.meta.id (get pool chunk.meta.id)
