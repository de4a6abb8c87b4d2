-- ===== src/Chunk/Handle.antt =====
-- `ChunkList::handle`: a chunk enters the pool, and a message may leave it.
use rings_node.Base.{
  ℕ, refl, ◌+◌, ◌-◌, ◌%◌, ◌^◌, ◌<◌, ◌≡◌, ◌≢◌, ap, ◌∙◌, ◌⊎◌, inl, inr, Bool, true, false, not,
  Option, none, some, List, [], ◌∷◌, ◌++◌, arith, ltb, ◌==◌, retain, Bool-cases, All, All-append,
  All-retain,
}
use rings_node.Error.{ok}
use rings_node.Chunk.{
  Chunk, ChunkMeta, max_ttl_ms, ts_offset_tolerance_ms, from_bytes, get, remove, remove_expired,
  withdrawn, handle,
}
use rings_node.Chunk.Split.{IsPart}
use rings_node.Chunk.Repeats.{In}
use rings_node.Chunk.Whole.{from_bytes-IsCut, get_lem}

-- The chunk is refused: it is to live too long, or comes from the future.
abbrev pub IsRefused : ℕ → Chunk → Type 0
IsRefused now c =
    (max_ttl_ms < c.meta.ttl_ms)
    ⊎ (now < (c.meta.ts_ms + 2 ^ 128 - ts_offset_tolerance_ms) % 2 ^ 128)

-- The end of the chunk's lifetime is still to come.
abbrev pub Lives : ℕ → Chunk → Type 0
Lives now c = now < (c.meta.ts_ms + c.meta.ttl_ms) % 2 ^ 128

-- The second list is the first, less exactly the chunks of which `P` is false.
pub data Kept (P : Chunk → Type 0) : List Chunk → List Chunk → Type 0 where
  none_left : Kept P [] []
  keep : {c : Chunk} {cs ds : List Chunk} → P c → Kept P cs ds → Kept P (c ∷ cs) (c ∷ ds)
  skip : {c : Chunk} {cs ds : List Chunk} → (P c → ⊥) → Kept P cs ds → Kept P (c ∷ cs) ds

retain-Kept :
    (P : Chunk → Type 0) (f : Chunk → Bool)
    → ((c : Chunk) → f c ≡ true → P c)
    → ((c : Chunk) → f c ≡ false → P c → ⊥)
    → (cs : List Chunk) → Kept P cs (retain f cs)
retain-Kept P f yes_ no_ [] = none_left
retain-Kept P f yes_ no_ (c ∷ cs) = elim (Bool-cases (f c)) [
  | inl e ↦ rw (e, retain) (keep (yes_ c e) (retain-Kept P f yes_ no_ cs))
  | inr e ↦ rw (e, retain) (skip (no_ c e) (retain-Kept P f yes_ no_ cs))
]

remove_expired-Kept : (now : ℕ) (cs : List Chunk) → Kept (Lives now) cs (remove_expired now cs)
unfolding remove_expired
remove_expired-Kept now cs =
    retain-Kept (Lives now) (λ e. ltb now ((e.meta.ts_ms + e.meta.ttl_ms) % 2 ^ 128))
      (λ c e. ground arith) (λ c e l. ground arith) cs

remove-Kept : (id : ℕ) (cs : List Chunk) → Kept (λ x. x.meta.id ≢ id) cs (remove cs id)
unfolding remove
remove-Kept id cs =
    retain-Kept (λ x. x.meta.id ≢ id) (λ e. not (e.meta.id == id)) (λ c e. ground arith)
      (λ c e n. ground (arith, n)) cs

All-remove_expired :
    (P : Chunk → Type 0) (now : ℕ) (cs : List Chunk) → All P cs → All P (remove_expired now cs)
unfolding remove_expired
All-remove_expired P now cs h = All-retain P _ cs h

-- The tests of `handle` on the chunk.
IsRefused-cases :
    (now : ℕ) (pool : List Chunk) (c : Chunk)
    → let living = remove_expired now (pool ++ c ∷ []) in
      (IsRefused now c × (handle now pool c ≡ (pool, none)))
      ⊎ ((IsRefused now c → ⊥)
          × (handle now pool c ≡ withdrawn living c.meta.id (get living c.meta.id)))
unfolding handle
IsRefused-cases now pool c = elim (Bool-cases (ltb max_ttl_ms c.meta.ttl_ms)) [
  | inl long ↦ inl (inl (ground arith), rw long refl)
  | inr short ↦
      let early = ltb now ((c.meta.ts_ms + 2 ^ 128 - ts_offset_tolerance_ms) % 2 ^ 128) in
      elim (Bool-cases early) [
        | inl future ↦ inl (inr (ground arith), rw (short, future) refl)
        | inr past ↦ inr (λ r. ground (arith, r), rw (short, past) refl)
      ]
]

-- What comes out of the pool `living`: either it has every part of the message, which comes out, and
-- exactly the chunks with its identifier go; or a part is missing, and nothing comes out nor goes.
abbrev pub Outcome :
    List Chunk → List Chunk → ChunkMeta → List ℕ → List Chunk × Option (List ℕ) → Type 0
Outcome living split meta bytes result =
    ((rest : List Chunk) × All (λ s. In s living) split
      × (result ≡ (rest, some bytes))
      × Kept (λ x. x.meta.id ≢ meta.id) living rest)
    ⊎ ((All (λ s. In s living) split → ⊥) × (result ≡ (living, none)))

-- A chunk is not refused: `living` is what is left of the pool and the chunk when exactly what has
-- expired is gone.
abbrev pub Takes :
    ℕ → List Chunk → List Chunk → ChunkMeta → List ℕ → List Chunk × Option (List ℕ) → Type 0
Takes now pool split meta bytes result =
    (living : List Chunk) × Kept (Lives now) pool living × Outcome living split meta bytes result

withdrawn-Outcome :
    (living split : List Chunk) (meta : ChunkMeta) (bytes : List ℕ)
    (result : List Chunk × Option (List ℕ))
    → result ≡ withdrawn living meta.id (get living meta.id)
    → (All (λ s. In s living) split × (get living meta.id ≡ some bytes))
      ⊎ ((All (λ s. In s living) split → ⊥) × (get living meta.id ≡ none))
    → Outcome living split meta bytes result
withdrawn-Outcome living split meta bytes result taken (inl (a, g)) =
    inl (
      remove living meta.id,
      a,
      taken ∙ ap (withdrawn living meta.id) g,
      remove-Kept meta.id living,
    )
withdrawn-Outcome living split meta bytes result taken (inr (m, g)) =
    inr (m, taken ∙ ap (withdrawn living meta.id) g)

-- A part of a message (not empty) arrives at a pool where every chunk with the message's identifier is
-- a part of it. Either it is refused, the pool stays as it is and nothing comes out; or it is not, it
-- enters, and exactly what has expired goes. If then every part of the message is there, in whatever
-- order and however often, the message comes out and exactly the chunks with its identifier go; if a part
-- is missing, nothing comes out and nothing else goes.
pub handle_lem :
    (now mtu : ℕ) (meta : ChunkMeta) (bytes : List ℕ) (split pool : List Chunk) (c : Chunk)
    → bytes ≢ []
    → from_bytes mtu meta bytes ≡ ok split
    → All (λ x. x.meta.id ≡ meta.id → IsPart split x) pool
    → IsPart split c
    → (IsRefused now c × (handle now pool c ≡ (pool, none)))
      ⊎ ((IsRefused now c → ⊥) × Takes now (pool ++ c ∷ []) split meta bytes (handle now pool c))
handle_lem now mtu meta bytes split pool c ne e ps part = elim (IsRefused-cases now pool c) [
  | inl r ↦ inl r
  | inr (fine, h) ↦
      let living = remove_expired now (pool ++ c ∷ []) in
      let own : c.meta.id ≡ meta.id =
        ap (λ m. m.id) ((from_bytes-IsCut mtu meta bytes split ne e).of_part c part).1 in
      let taken : handle now pool c ≡ withdrawn living meta.id (get living meta.id) =
        h ∙ ap (λ i. withdrawn living i (get living i)) own in
      let found =
        get_lem mtu meta bytes split living ne e
          (All-remove_expired _ now _ (All-append _ pool (c ∷ []) ps (λ q. part, tt))) in
      inr (
        fine,
        (
          living,
          remove_expired-Kept now (pool ++ c ∷ []),
          withdrawn-Outcome living split meta bytes _ taken found,
        ),
      )
]
