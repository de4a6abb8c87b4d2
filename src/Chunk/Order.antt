-- ===== src/Chunk/Order.antt =====
-- Chunks of one message in any order: `try_withdraw`.
use rings_node.Base.{
  ℕ, zero, suc, ◌≤◌, ◌≡◌, ◌≢◌, refl, ap, sym, ◌∙◌, true, some, List, [], ◌∷◌, arith, length, All,
  Distinct, sort_by, sort_by-IsSorted, length-sort_by, All-sort_by, Distinct-sort_by, ◌==◌, ==_iff,
  Bool-cases, inl, inr, subst,
}
use rings_node.Error.{ok, panic, ok-inj}
use rings_node.Chunk.{
  Chunk, ChunkMeta, chunks_of, number, from_bytes, formalize, is_full, is_completed, concat,
  try_withdraw,
}
use rings_node.Chunk.Split.{
  IsPart, concat-number, length-number, dedup-All, Rising-of-IsSorted, Rising-drop,
}

All-zero : (cs : List Chunk) → All (λ c. 0 ≤ c.index) cs
All-zero [] = tt
All-zero (c ∷ cs) = (omega arith, All-zero cs)

pub formalize-All :
    (split cs : List Chunk)
    → All (IsPart split) cs
    → Distinct cs
    → length cs ≡ length split
    → formalize cs ≡ split
unfolding formalize
formalize-All split cs ps d e =
    let key : Chunk → ℕ = λ x. x.index in
    let sorted = sort_by key cs in
    let parts : All (IsPart split) sorted = All-sort_by key (IsPart split) cs ps in
    ap (sort_by key) (dedup-All split cs ps d)
    ∙ Rising-drop split 0 sorted
        (Rising-of-IsSorted split 0 sorted (All-zero sorted) parts (Distinct-sort_by key cs d)
          (sort_by-IsSorted key cs))
        parts (omega (arith, length-sort_by key cs, e))

pub is_full-number :
    (meta : ChunkMeta) (ds : List (List ℕ))
    → ds ≢ []
    → is_full (number meta (length ds) 0 ds) ≡ true
unfolding number
is_full-number meta [] ne = absurd (ne refl)
is_full-number meta (d ∷ ds) ne =
    (==_iff _ _).1 (ap suc (length-number meta (length (d ∷ ds)) 1 ds))

pub chunks_of-ne :
    (n mtu : ℕ) (bytes : List ℕ) → bytes ≢ [] → length bytes ≤ n → chunks_of n mtu bytes ≢ []
unfolding chunks_of
chunks_of-ne n mtu [] ne h e = ne refl
chunks_of-ne zero mtu (b ∷ bytes) ne h e = absurd (omega (arith, h))
chunks_of-ne (suc n) mtu (b ∷ bytes) ne h e = cc

-- A message that is not empty is cut into chunks of at most `mtu` bytes. A pool that holds each of these
-- chunks once, in whatever order, is complete, and gives the message back.
pub withdraw_any_order :
    (mtu : ℕ) (meta : ChunkMeta) (bytes : List ℕ) (split cs : List Chunk)
    → bytes ≢ []
    → from_bytes mtu meta bytes ≡ ok split
    → All (IsPart split) cs
    → Distinct cs
    → length cs ≡ length split
    → try_withdraw cs ≡ some bytes
unfolding from_bytes try_withdraw is_completed
withdraw_any_order mtu meta bytes split cs ne e ps d len = elim (Bool-cases (mtu == 0)) [
  | inl z ↦ absurd (panics (rw z at e))
  | inr z ↦
      let ds = chunks_of (length bytes) mtu bytes in
      let pieces : number meta (length ds) 0 ds ≡ split = ok-inj (rw z at e) in
      let full : is_full split ≡ true =
        subst (λ s. is_full s ≡ true) pieces
          (is_full-number meta ds (chunks_of-ne (length bytes) mtu bytes ne (omega arith))) in
      rw (formalize-All split cs ps d len, full)
        (ap some (
          ap concat (sym pieces)
          ∙ concat-number (length bytes) mtu meta (length ds) 0 bytes (ground arith) (omega arith)))
]
  where
    panics : {s : List Chunk} → panic ≢ ok s
    panics q = cc
