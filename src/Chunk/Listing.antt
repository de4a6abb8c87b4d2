-- ===== src/Chunk/Listing.antt =====
-- `list_completed` and `list_pending` of rings-core/src/chunk.rs. `group_by` of itertools puts neighbours
-- together whose keys are equal.
use rings_node.Base.{
  ℕ, ◌≡◌, refl, ap, ◌∙◌, inl, inr, Bool, not, List, [], ◌∷◌, ◌++◌, Bool-cases, if◌then◌else◌,
}
use rings_node.Chunk.{Chunk, tx_eq, is_completed}

-- A chunk before the groups of those behind it.
abbrev grouped : Chunk → List (Chunk × List Chunk) → List (Chunk × List Chunk)
grouped c [] = (c, c ∷ []) ∷ []
grouped c ((d, g) ∷ gs) = if tx_eq c d then (c, c ∷ g) ∷ gs else (c, c ∷ []) ∷ (d, g) ∷ gs

-- A group's first chunk, and the group.
unfoldable pub group_by : List Chunk → List (Chunk × List Chunk)
group_by [] = []
group_by (c ∷ cs) = grouped c (group_by cs)

-- The messages of the groups that are complete, or of those that are not.
unfoldable pub filter_map : (List Chunk → Bool) → List (Chunk × List Chunk) → List ℕ
filter_map keep [] = []
filter_map keep ((c, g) ∷ gs) =
    let rest = filter_map keep gs in if keep g then c.meta.id ∷ rest else rest

unfoldable pub list_completed : List Chunk → List ℕ
unfolding group_by filter_map
list_completed self = filter_map is_completed (group_by self)

unfoldable pub list_pending : List Chunk → List ℕ
unfolding group_by filter_map
list_pending self = filter_map (λ g. not (is_completed g)) (group_by self)

members : List (Chunk × List Chunk) → List Chunk
members [] = []
members ((c, g) ∷ gs) = g ++ members gs

members-grouped :
    (c : Chunk) (gs : List (Chunk × List Chunk)) → members (grouped c gs) ≡ c ∷ members gs
unfolding members
members-grouped c [] = refl
members-grouped c ((d, g) ∷ gs) = elim (Bool-cases (tx_eq c d)) [
  | inl q ↦ rw q refl
  | inr q ↦ rw q refl
]

-- The groups are the pool, in its order.
members-group_by : (l : List Chunk) → members (group_by l) ≡ l
unfolding members group_by
members-group_by [] = refl
members-group_by (c ∷ cs) = members-grouped c (group_by cs) ∙ ap (λ x. c ∷ x) (members-group_by cs)
