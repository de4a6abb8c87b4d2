-- ===== src/Chunk/Split.antt =====
-- `From<&Bytes>` and `formalize`: the pieces of a message, their indexes and their bytes.
use rings_node.Base.{
  ℕ, zero, suc, ◌+◌, ◌-◌, ◌≤◌, ◌<◌, ◌≡◌, ◌≢◌, refl, ap, sym, ◌∙◌, false, some, List, [], ◌∷◌, ◌++◌,
  arith, length, length-drop, take, drop, take-append-drop, get_elem?, lt-of-get_elem?, All,
  Distinct, IsSorted, ◌==◌, some-inj, subst,
}
use rings_node.Chunk.{Chunk, ChunkMeta, chunks_of, number, dedup_from, dedup, concat}

-- The bytes of the numbered pieces.
pub concat-number :
    (n mtu : ℕ) (meta : ChunkMeta) (total i : ℕ) (bytes : List ℕ)
    → 0 < mtu
    → length bytes ≤ n
    → concat (number meta total i (chunks_of n mtu bytes)) ≡ bytes
unfolding chunks_of number
concat-number zero mtu meta total i [] pos h = refl
concat-number zero mtu meta total i (b ∷ bytes) pos h = absurd (omega arith)
concat-number (suc n) mtu meta total i [] pos h = refl
concat-number (suc n) mtu meta total i (b ∷ bytes) pos h =
    ap (λ xs. take mtu (b ∷ bytes) ++ xs)
      (concat-number n mtu meta total (i + 1) (drop mtu (b ∷ bytes)) pos
        (omega (arith, length-drop mtu (b ∷ bytes))))
    ∙ take-append-drop mtu (b ∷ bytes)

-- What a chunk of the message is: the one that stands at its index.
abbrev pub IsPart : List Chunk → Chunk → Type 0
IsPart split c = get_elem? split c.index ≡ some c

pub number-index :
    (meta : ChunkMeta) (total i : ℕ) (ds : List (List ℕ)) (j : ℕ) (c : Chunk)
    → get_elem? (number meta total i ds) j ≡ some c
    → (c.index ≡ i + j) × (c.total ≡ total)
unfolding number
number-index meta total i [] j c e = cc
number-index meta total i (d ∷ ds) zero c e =
    subst (λ x. (x.index ≡ i + 0) × (x.total ≡ total)) (some-inj e) (omega arith, refl)
number-index meta total i (d ∷ ds) (suc j) c e =
    let (p, q) = number-index meta total (i + 1) ds j c e in (omega (arith, p), q)

pub number-meta :
    (meta : ChunkMeta) (total i : ℕ) (ds : List (List ℕ)) (j : ℕ) (c : Chunk)
    → get_elem? (number meta total i ds) j ≡ some c
    → c.meta ≡ meta
unfolding number
number-meta meta total i [] j c e = cc
number-meta meta total i (d ∷ ds) zero c e = ap (λ x. x.meta) (sym (some-inj e))
number-meta meta total i (d ∷ ds) (suc j) c e = number-meta meta total (i + 1) ds j c e

pub length-number :
    (meta : ChunkMeta) (total i : ℕ) (ds : List (List ℕ))
    → length (number meta total i ds) ≡ length ds
unfolding number
length-number meta total i [] = refl
length-number meta total i (d ∷ ds) = ap suc (length-number meta total (i + 1) ds)

module _ (split : List Chunk) where
  other_index :
      (c : Chunk) (cs : List Chunk)
      → IsPart split c
      → All (IsPart split) cs
      → All (λ x. c ≢ x) cs
      → All (λ x. c.index ≢ x.index) cs
  other_index c [] p ps ne = tt
  other_index c (x ∷ cs) p ps ne =
      (λ e. ne.0 (some-inj (sym p ∙ ap (get_elem? split) e ∙ ps.0)), other_index c cs p ps.1 ne.1)

  dedup_from-All :
      (i : ℕ) (cs : List Chunk)
      → All (λ x. i ≢ x.index) cs
      → All (IsPart split) cs
      → Distinct cs
      → dedup_from i cs ≡ cs
  unfolding dedup_from
  dedup_from-All i [] ne ps d = refl
  dedup_from-All i (c ∷ cs) ne ps d =
      let differs : (c.index == i) ≡ false = let n = ne.0 in ground arith in
      rw differs
        (ap (λ xs. c ∷ xs) (dedup_from-All c.index cs (other_index c cs ps.0 ps.1 d.0) ps.1 d.1))

  pub dedup-All : (cs : List Chunk) → All (IsPart split) cs → Distinct cs → dedup cs ≡ cs
  unfolding dedup
  dedup-All [] ps d = refl
  dedup-All (c ∷ cs) ps d =
      ap (λ xs. c ∷ xs) (dedup_from-All c.index cs (other_index c cs ps.0 ps.1 d.0) ps.1 d.1)

  -- Strictly rising indexes, from `lo` up.
  abbrev pub Rising : ℕ → List Chunk → Type 0
  Rising lo [] = Unit
  Rising lo (c ∷ cs) = (lo ≤ c.index) × (c.index < length split) × Rising (suc c.index) cs

  pub Rising-of-IsSorted :
      (lo : ℕ) (cs : List Chunk)
      → All (λ c. lo ≤ c.index) cs
      → All (IsPart split) cs
      → Distinct cs
      → IsSorted (λ c. c.index) cs
      → Rising lo cs
  Rising-of-IsSorted lo [] l ps d s = tt
  Rising-of-IsSorted lo (c ∷ cs) l ps d s = (
    l.0,
    lt-of-get_elem? split c.index ps.0,
    Rising-of-IsSorted (suc c.index) cs (above cs s.0 (other_index c cs ps.0 ps.1 d.0)) ps.1 d.1
        s.1,
  )
    where
      above :
          (xs : List Chunk)
          → All (λ x. c.index ≤ x.index) xs
          → All (λ x. c.index ≢ x.index) xs
          → All (λ x. suc c.index ≤ x.index) xs
      above [] h k = tt
      above (x ∷ xs) h k = (omega (arith, h.0, k.0), above xs h.1 k.1)

  pub length-Rising : (lo : ℕ) (cs : List Chunk) → Rising lo cs → length cs ≤ length split - lo
  length-Rising lo [] r = omega arith
  length-Rising lo (c ∷ cs) (l, h, r) = omega (arith, l, h, length-Rising (suc c.index) cs r)

  -- So many rising parts are all of them.
  pub Rising-drop :
      (lo : ℕ) (cs : List Chunk)
      → Rising lo cs
      → All (IsPart split) cs
      → length cs ≡ length split - lo
      → cs ≡ drop lo split
  Rising-drop lo [] r ps e = sym (drop-all lo split (omega (arith, e)))
    where
      drop-all : (n : ℕ) (xs : List Chunk) → length xs ≤ n → drop n xs ≡ []
      drop-all zero [] h = refl
      drop-all zero (x ∷ xs) h = absurd (omega arith)
      drop-all (suc n) [] h = refl
      drop-all (suc n) (x ∷ xs) h = drop-all n xs (omega arith)
  Rising-drop lo (c ∷ cs) (l, h, r) ps e =
      let first : c.index ≡ lo = omega (arith, l, h, e, length-Rising (suc c.index) cs r) in
      let rest : cs ≡ drop (suc c.index) split =
        Rising-drop (suc c.index) cs r ps.1 (omega (arith, e, first, h)) in
      ap (λ xs. c ∷ xs) rest ∙ sym (drop-at c.index split c ps.0) ∙ ap (λ n. drop n split) first
    where
      drop-at :
          (n : ℕ) (xs : List Chunk) (x : Chunk)
          → get_elem? xs n ≡ some x
          → drop n xs ≡ x ∷ drop (suc n) xs
      drop-at n [] x g = cc
      drop-at zero (y ∷ xs) x g = ap (λ z. z ∷ xs) (some-inj g)
      drop-at (suc n) (y ∷ xs) x g = drop-at n xs x g
