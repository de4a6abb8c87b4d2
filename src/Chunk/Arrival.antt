-- ===== src/Chunk/Arrival.antt =====
-- A pool while the chunks of one message arrive: it keeps them until the last one completes the message.
use rings_node.Base.{
  ℕ, ◌+◌, ◌-◌, ◌%◌, ◌^◌, ◌<◌, ◌≤◌, ◌≡◌, refl, ap, ◌∙◌, true, false, not, none, some, List, [], ◌∷◌,
  ◌++◌, arith, length, ltb, ◌==◌, ==_iff, retain-All, retain_none, All, Distinct, All-sort_by,
  length-sort_by, Distinct-sort_by,
}
use rings_node.Chunk.{
  Chunk, ChunkMeta, max_ttl_ms, ts_offset_tolerance_ms, formalize, search, is_full, is_completed,
  concat, try_withdraw, get, remove, remove_expired, withdrawn, handle,
}
use rings_node.Chunk.Split.{IsPart, dedup-All}
use rings_node.Chunk.Order.{formalize-All}

-- A chunk with this metadata is neither refused nor expired at the time `now`.
abbrev pub InTime : ChunkMeta → ℕ → Type 0
InTime meta now =
    (meta.ttl_ms ≤ max_ttl_ms)
    × ((meta.ts_ms + 2 ^ 128 - ts_offset_tolerance_ms) % 2 ^ 128 ≤ now)
    × (now < (meta.ts_ms + meta.ttl_ms) % 2 ^ 128)

module _ (split : List Chunk) (meta : ChunkMeta)
    (of_split : (c : Chunk) → IsPart split c → (c.total ≡ length split) × (c.meta ≡ meta)) where
  -- Different parts of the message.
  abbrev pub Parts : List Chunk → Type 0
  Parts cs = All (IsPart split) cs × Distinct cs

  formalize-Parts :
      (cs : List Chunk) → Parts cs → Parts (formalize cs) × (length (formalize cs) ≡ length cs)
  unfolding formalize
  formalize-Parts cs (ps, d) = rw (dedup-All split cs ps d) (
    (All-sort_by (λ c. c.index) (IsPart split) cs ps, Distinct-sort_by (λ c. c.index) cs d),
    length-sort_by (λ c. c.index) cs,
  )

  All-of :
      {P : Chunk → Type 0} (cs : List Chunk)
      → ((c : Chunk) → IsPart split c → P c)
      → All (IsPart split) cs
      → All P cs
  All-of [] f ps = tt
  All-of (c ∷ cs) f ps = (f c ps.0, All-of cs f ps.1)

  is_full-short :
      (cs : List Chunk) → All (IsPart split) cs → length cs < length split → is_full cs ≡ false
  is_full-short [] ps n = refl
  is_full-short (c ∷ cs) ps n = let t = (of_split c ps.0).0 in ground (arith, t, n)

  get-all : (cs : List Chunk) → Parts cs → get cs meta.id ≡ try_withdraw (formalize cs)
  unfolding get search
  get-all cs p =
      ap (λ l. try_withdraw (formalize l))
        (retain-All (λ e. e.meta.id == meta.id) cs
          (All-of cs (λ c q. (==_iff _ _).1 (ap (λ m. m.id) (of_split c q).1)) p.0))

  get-short : (cs : List Chunk) → Parts cs → length cs < length split → get cs meta.id ≡ none
  unfolding try_withdraw is_completed
  get-short cs p n =
      let (once, n1) = formalize-Parts cs p in
      let (twice, n2) = formalize-Parts (formalize cs) once in
      get-all cs p
      ∙ rw (is_full-short (formalize (formalize cs)) twice.0 (omega (arith, n1, n2, n))) refl

  get-whole :
      (cs : List Chunk)
      → Parts cs
      → length cs ≡ length split
      → is_full split ≡ true
      → get cs meta.id ≡ some (concat split)
  unfolding try_withdraw is_completed
  get-whole cs p n full =
      let (once, n1) = formalize-Parts cs p in
      let same : formalize (formalize cs) ≡ split =
        formalize-All split (formalize cs) once.0 once.1 (n1 ∙ n) in
      get-all cs p ∙ rw (same, full) refl

  module _ (now : ℕ) (pool : List Chunk) (c : Chunk) (intime : InTime meta now)
      (p : Parts (pool ++ c ∷ [])) (part : IsPart split c) where
    handle-get :
        handle now pool c ≡ withdrawn (pool ++ c ∷ []) meta.id (get (pool ++ c ∷ []) meta.id)
    unfolding handle remove_expired
    handle-get =
        let same : c.meta ≡ meta = (of_split c part).1 in
        let short : ltb max_ttl_ms c.meta.ttl_ms ≡ false =
          ap (λ m. ltb max_ttl_ms m.ttl_ms) same ∙ ground (arith, intime) in
        let past : ltb now ((c.meta.ts_ms + 2 ^ 128 - ts_offset_tolerance_ms) % 2 ^ 128) ≡ false =
          ap (λ m. ltb now ((m.ts_ms + 2 ^ 128 - ts_offset_tolerance_ms) % 2 ^ 128)) same
          ∙ ground (arith, intime) in
        let fresh : ltb now ((meta.ts_ms + meta.ttl_ms) % 2 ^ 128) ≡ true =
          ground (arith, intime) in
        let stays =
          retain-All (λ e. ltb now ((e.meta.ts_ms + e.meta.ttl_ms) % 2 ^ 128)) (pool ++ c ∷ [])
            (All-of (pool ++ c ∷ []) (λ x q. rw ((of_split x q).1) fresh) p.0) in
        rw (short, past, stays)
          (ap (λ m. withdrawn (pool ++ c ∷ []) m.id (get (pool ++ c ∷ []) m.id)) same)

    pub handle-short :
        length (pool ++ c ∷ []) < length split → handle now pool c ≡ (pool ++ c ∷ [], none)
    handle-short n = handle-get ∙ rw (get-short (pool ++ c ∷ []) p n) refl

    pub handle-whole :
        length (pool ++ c ∷ []) ≡ length split
        → is_full split ≡ true
        → handle now pool c ≡ ([], some (concat split))
    unfolding remove
    handle-whole n full =
        handle-get
        ∙ rw (get-whole (pool ++ c ∷ []) p n full) (
            ap (λ l. (l, some (concat split)))
              (retain_none (λ e. not (e.meta.id == meta.id)) (pool ++ c ∷ [])
                (All-of (pool ++ c ∷ [])
                  (λ x q. ap not ((==_iff _ _).1 (ap (λ m. m.id) (of_split x q).1))) p.0)))
