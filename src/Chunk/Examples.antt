-- ===== src/Chunk/Examples.antt =====
-- The theorems on chunks at a message of five bytes, cut into three chunks.
use rings_node.Base.{
  ℕ, ◌≡◌, ◌≢◌, refl, ap, none, some, List, [], ◌∷◌, ◌++◌, ◌⊎◌, All, arith, Distinct, sort_by,
  insert_by,
}
use rings_node.Error.{ok}
use rings_node.Chunk.{
  Chunk, ChunkMeta, from_bytes, chunks_of, number, try_withdraw, handle, get, search, formalize,
  dedup, dedup_from, is_completed, remove, remove_expired, tx_eq,
}
use rings_node.Chunk.Order.{withdraw_any_order}
use rings_node.Chunk.Repeats.{In}
use rings_node.Chunk.Whole.{get_lem}
use rings_node.Chunk.Listing.{group_by, filter_map, list_completed, list_pending}
use rings_node.Chunk.Handle.{IsRefused, Takes, handle_lem}

abbrev meta : ChunkMeta
meta = record { id = 7; ts_ms = 10000; ttl_ms = 300000 }

abbrev part : ℕ → List ℕ → Chunk
part i bytes = record { index = i; total = 3; bytes = bytes; meta = meta }

abbrev split : List Chunk
split = part 0 (1 ∷ 2 ∷ []) ∷ part 1 (3 ∷ 4 ∷ []) ∷ part 2 (5 ∷ []) ∷ []

abbrev mixed : List Chunk
mixed = part 2 (5 ∷ []) ∷ part 0 (1 ∷ 2 ∷ []) ∷ part 1 (3 ∷ 4 ∷ []) ∷ []

split_test : from_bytes 2 meta (1 ∷ 2 ∷ 3 ∷ 4 ∷ 5 ∷ []) ≡ ok split
unfolding from_bytes chunks_of number
split_test = refl

part-ne : (i j : ℕ) (a b : List ℕ) → i ≢ j → part i a ≢ part j b
part-ne i j a b ne e = ne (ap (λ c. c.index) e)

mixed-Distinct : Distinct mixed
mixed-Distinct = (
  (part-ne 2 0 _ _ (omega arith), (part-ne 2 1 _ _ (omega arith), tt)),
  ((part-ne 0 1 _ _ (omega arith), tt), (tt, tt)),
)

withdraw_any_order_example : try_withdraw mixed ≡ some (1 ∷ 2 ∷ 3 ∷ 4 ∷ 5 ∷ [])
withdraw_any_order_example =
    withdraw_any_order 2 meta (1 ∷ 2 ∷ 3 ∷ 4 ∷ 5 ∷ []) split mixed (λ e. cc) split_test
      (refl, (refl, (refl, tt))) mixed-Distinct refl

-- Chunk 0 comes again after chunk 1.
abbrev again : List Chunk
again = part 0 (1 ∷ 2 ∷ []) ∷ part 1 (3 ∷ 4 ∷ []) ∷ part 0 (1 ∷ 2 ∷ []) ∷ part 2 (5 ∷ []) ∷ []

again_test : get again 7 ≡ some (1 ∷ 2 ∷ 3 ∷ 4 ∷ 5 ∷ [])
unfolding get search formalize dedup dedup_from is_completed try_withdraw sort_by insert_by
again_test = refl

get_lem_example :
    (All (λ s. In s again) split × (get again 7 ≡ some (1 ∷ 2 ∷ 3 ∷ 4 ∷ 5 ∷ [])))
    ⊎ ((All (λ s. In s again) split → ⊥) × (get again 7 ≡ none))
get_lem_example =
    get_lem 2 meta (1 ∷ 2 ∷ 3 ∷ 4 ∷ 5 ∷ []) split again (λ e. cc) split_test
      (λ q. refl, (λ q. refl, (λ q. refl, (λ q. refl, tt))))

-- The last chunk arrives at time 20000.
abbrev pool : List Chunk
pool = part 0 (1 ∷ 2 ∷ []) ∷ part 1 (3 ∷ 4 ∷ []) ∷ []

handle_test : handle 20000 pool (part 2 (5 ∷ [])) ≡ ([], some (1 ∷ 2 ∷ 3 ∷ 4 ∷ 5 ∷ []))
unfolding handle get search formalize dedup dedup_from is_completed remove remove_expired
    try_withdraw sort_by insert_by
handle_test = refl

-- The chunk that the pool has is there twice, and a chunk of another message that has expired.
abbrev old : Chunk
old = record { index = 0; total = 2; bytes = []; meta = record { id = 9; ts_ms = 1; ttl_ms = 1 } }

abbrev busy : List Chunk
busy = part 1 (3 ∷ 4 ∷ []) ∷ old ∷ part 0 (1 ∷ 2 ∷ []) ∷ part 1 (3 ∷ 4 ∷ []) ∷ []

busy_test : handle 20000 busy (part 2 (5 ∷ [])) ≡ ([], some (1 ∷ 2 ∷ 3 ∷ 4 ∷ 5 ∷ []))
unfolding handle get search formalize dedup dedup_from is_completed remove remove_expired
    try_withdraw sort_by insert_by
busy_test = refl

handle_lem_example :
    (IsRefused 20000 (part 2 (5 ∷ [])) × (handle 20000 busy (part 2 (5 ∷ [])) ≡ (busy, none)))
    ⊎ ((IsRefused 20000 (part 2 (5 ∷ [])) → ⊥)
        × Takes 20000
            (busy ++ part 2 (5 ∷ []) ∷ [])
            split
            meta
            (1 ∷ 2 ∷ 3 ∷ 4 ∷ 5 ∷ [])
            (handle 20000 busy (part 2 (5 ∷ []))))
handle_lem_example =
    handle_lem 20000 2 meta (1 ∷ 2 ∷ 3 ∷ 4 ∷ 5 ∷ []) split busy (part 2 (5 ∷ [])) (λ e. cc)
      split_test (λ q. refl, (λ q. absurd (omega (arith, q)), (λ q. refl, (λ q. refl, tt)))) refl

-- A message of two chunks with a chunk of another message between them: `get` gives it, and both lists
-- name it as pending only, twice.
abbrev foreign : Chunk
foreign = record { index = 0; total = 2; bytes = 9 ∷ []; meta = record meta { id = 8 } }

abbrev half : ℕ → Chunk
half i = record { index = i; total = 2; bytes = i ∷ []; meta = meta }

abbrev interleaved : List Chunk
interleaved = half 0 ∷ foreign ∷ half 1 ∷ []

get_test : get interleaved 7 ≡ some (0 ∷ 1 ∷ [])
unfolding get search formalize dedup dedup_from is_completed try_withdraw sort_by insert_by
get_test = refl

list_completed_test : list_completed interleaved ≡ []
unfolding list_completed group_by filter_map tx_eq is_completed formalize dedup dedup_from sort_by
    insert_by
list_completed_test = refl

list_pending_test : list_pending interleaved ≡ 7 ∷ 8 ∷ 7 ∷ []
unfolding list_pending group_by filter_map tx_eq is_completed formalize dedup dedup_from sort_by
    insert_by
list_pending_test = refl
