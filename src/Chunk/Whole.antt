-- ===== src/Chunk/Whole.antt =====
-- `ChunkList::get` on a pool in which the chunks of a message stand among others, some of them twice.
use rings_node.Base.{
  ℕ, zero, suc, ◌<◌, ◌≡◌, ◌≢◌, refl, ap, sym, ◌∙◌, ◌⊎◌, inl, inr, true, false≢true, none, some,
  some-inj, List, [], ◌∷◌, arith, length, retain, get_elem?, get_elem?-lt, All, ◌==◌, ==_iff,
  Bool-cases, subst,
}
use rings_node.Error.{ok, panic≢ok, ok-inj}
use rings_node.Chunk.{
  Chunk, ChunkMeta, chunks_of, number, from_bytes, formalize, search, is_full, is_completed, concat,
  try_withdraw, get,
}
use rings_node.Chunk.Split.{
  IsPart, concat-number, length-number, number-index, number-meta, length-Rising, Rising-drop,
}
use rings_node.Chunk.Order.{is_full-number, chunks_of-ne}
use rings_node.Chunk.Repeats.{
  In, In-All, All-In, In-formalize, In-of-formalize, Rising-formalize, Rising-long,
}

-- What `from_bytes` makes of a message that is not empty: numbered parts with its metadata.
pub record IsCut (meta : ChunkMeta) (bytes : List ℕ) (split : List Chunk) : Type 0 where
  pub of_part : (c : Chunk) → IsPart split c → (c.total ≡ length split) × (c.meta ≡ meta)
  pub at : (k : ℕ) → k < length split → (x : Chunk) × (x.index ≡ k) × IsPart split x
  pub full : is_full split ≡ true
  pub joined : concat split ≡ bytes

pieces-IsCut :
    (mtu : ℕ) (meta : ChunkMeta) (bytes : List ℕ)
    → bytes ≢ []
    → 0 < mtu
    → let ds = chunks_of (length bytes) mtu bytes in IsCut meta bytes (number meta (length ds) 0 ds)
pieces-IsCut mtu meta bytes ne pos =
    let ds = chunks_of (length bytes) mtu bytes in
    let split = number meta (length ds) 0 ds in
    let index : (j : ℕ) (c : Chunk) → get_elem? split j ≡ some c → c.index ≡ j =
      λ j c e. omega (arith, (number-index meta (length ds) 0 ds j c e).0) in
    record {
      of_part = λ c p. (
        (number-index meta (length ds) 0 ds c.index c p).1
            ∙ sym (length-number meta (length ds) 0 ds),
        number-meta meta (length ds) 0 ds c.index c p,
      );
      at = λ k lt.
          let (x, e) = get_elem?-lt split k lt in
          (x, index k x e, ap (get_elem? split) (index k x e) ∙ e);
      full = is_full-number meta ds (chunks_of-ne (length bytes) mtu bytes ne (omega arith));
      joined = concat-number (length bytes) mtu meta (length ds) 0 bytes pos (omega arith);
    }

pub from_bytes-IsCut :
    (mtu : ℕ) (meta : ChunkMeta) (bytes : List ℕ) (split : List Chunk)
    → bytes ≢ []
    → from_bytes mtu meta bytes ≡ ok split
    → IsCut meta bytes split
unfolding from_bytes
from_bytes-IsCut mtu meta bytes split ne e = elim (Bool-cases (mtu == 0)) [
  | inl z ↦ absurd (panic≢ok (rw z at e))
  | inr z ↦
      subst (IsCut meta bytes) (ok-inj (rw z at e)) (pieces-IsCut mtu meta bytes ne (ground arith))
]

In-get_elem? : (x : Chunk) (xs : List Chunk) (k : ℕ) → get_elem? xs k ≡ some x → In x xs
In-get_elem? x [] k e = cc
In-get_elem? x (y ∷ xs) zero e = inl (sym (some-inj e))
In-get_elem? x (y ∷ xs) (suc k) e = inr (In-get_elem? x xs k e)

is_full-length :
    (n : ℕ) (cs : List Chunk) → All (λ c. c.total ≡ n) cs → is_full cs ≡ true → length cs ≡ n
is_full-length n [] t f = cc
is_full-length n (c ∷ cs) t f = (==_iff _ _).0 f ∙ t.0

module _ (id : ℕ) where
  abbrev pub of_id : List Chunk → List Chunk
  of_id = retain (λ e. e.meta.id == id)

  of_id-All :
      (P : Chunk → Type 0) (cs : List Chunk) → All (λ x. x.meta.id ≡ id → P x) cs → All P (of_id cs)
  of_id-All P [] h = tt
  of_id-All P (c ∷ cs) h = elim (Bool-cases (c.meta.id == id)) [
    | inl e ↦ rw (e, retain) (h.0 ((==_iff _ _).0 e), of_id-All P cs h.1)
    | inr e ↦ rw (e, retain) (of_id-All P cs h.1)
  ]

  In-of_id : (x : Chunk) (cs : List Chunk) → x.meta.id ≡ id → In x cs → In x (of_id cs)
  In-of_id x [] q i = i
  In-of_id x (c ∷ cs) q (inl e) =
      let same : (c.meta.id == id) ≡ true = (==_iff _ _).1 (ap (λ y. y.meta.id) (sym e) ∙ q) in
      rw (same, retain) (inl e)
  In-of_id x (c ∷ cs) q (inr i) = elim (Bool-cases (c.meta.id == id)) [
    | inl e ↦ rw (e, retain) (inr (In-of_id x cs q i))
    | inr e ↦ rw (e, retain) (In-of_id x cs q i)
  ]

  of_id-In : (cs : List Chunk) → All (λ x. In x cs) (of_id cs)
  of_id-In cs = of_id-All (λ x. In x cs) cs (All-In _ cs (λ x i q. i))

module _ (meta : ChunkMeta) (bytes : List ℕ) (split : List Chunk)
    (cut : IsCut meta bytes split) where
  module _ (pool : List Chunk) (ps : All (λ x. x.meta.id ≡ meta.id → IsPart split x) pool) where
    abbrev twice : List Chunk
    twice = formalize (formalize (of_id meta.id pool))

    mine : All (IsPart split) (of_id meta.id pool)
    mine = of_id-All meta.id (IsPart split) pool ps

    twice-In : (x : Chunk) → In x twice → In x (of_id meta.id pool)
    twice-In x i = In-of-formalize x _ (In-of-formalize x _ i)

    parts : All (IsPart split) twice
    parts = All-In _ twice (λ x i. In-All (IsPart split) x _ (twice-In x i) mine)

    once : All (IsPart split) (formalize (of_id meta.id pool))
    once = All-In _ _ (λ x i. In-All (IsPart split) x _ (In-of-formalize x _ i) mine)

    whole_of : length twice ≡ length split → twice ≡ split
    whole_of n = Rising-drop split 0 twice (Rising-formalize split _ mine) parts (omega (arith, n))

    length-twice : All (λ s. In s pool) split → length twice ≡ length split
    length-twice a =
        let rising = Rising-formalize split _ mine in
        let long = Rising-long split cut.at 0 twice rising (λ x p l. In-formalize split x _ once (
          In-formalize split x _ mine (
            In-of_id meta.id x pool (ap (λ m. m.id) (cut.of_part x p).1)
              (In-All (λ s. In s pool) x split (In-get_elem? x split x.index p) a)))) in
        omega (arith, long, length-Rising split 0 twice rising)

    In-split : twice ≡ split → All (λ s. In s pool) split
    In-split same = All-In _ split (λ x i.
        In-All (λ y. In y pool) x _ (twice-In x (subst (In x) (sym same) i))
          (of_id-In meta.id pool))

    pub get-IsCut :
        (All (λ s. In s pool) split × (get pool meta.id ≡ some bytes))
        ⊎ ((All (λ s. In s pool) split → ⊥) × (get pool meta.id ≡ none))
    unfolding get search try_withdraw is_completed
    get-IsCut = elim (Bool-cases (is_full twice)) [
      | inl f ↦
          let totals =
            All-In (λ c. c.total ≡ length split) twice
              (λ x i. (cut.of_part x (In-All (IsPart split) x twice i parts)).0) in
          let same = whole_of (is_full-length (length split) twice totals f) in
          inl (In-split same, rw (same, cut.full, cut.joined) refl)
      | inr f ↦
          inr
            (λ a. false≢true (sym f ∙ ap is_full (whole_of (length-twice a)) ∙ cut.full), rw f refl)
    ]

-- A message that is not empty is cut into parts, and every chunk of a pool that has its identifier is one
-- of them. Then either all parts have arrived, in whatever order, however often and with whatever chunks of
-- other messages between them, and `get` gives the message; or some part is missing and it gives nothing.
pub get_lem :
    (mtu : ℕ) (meta : ChunkMeta) (bytes : List ℕ) (split pool : List Chunk)
    → bytes ≢ []
    → from_bytes mtu meta bytes ≡ ok split
    → All (λ x. x.meta.id ≡ meta.id → IsPart split x) pool
    → (All (λ s. In s pool) split × (get pool meta.id ≡ some bytes))
      ⊎ ((All (λ s. In s pool) split → ⊥) × (get pool meta.id ≡ none))
get_lem mtu meta bytes split pool ne e ps =
    get-IsCut meta bytes split (from_bytes-IsCut mtu meta bytes split ne e) pool ps
