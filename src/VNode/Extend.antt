-- ===== src/VNode/Extend.antt =====
-- `extend` and `touch` of a virtual node: which entries stay, and how many.
use text.Mathlib.Text.{◌==◌ as str_eq}
use text.Mathlib.TextEquality.{eq_iff}
use rings_node.Base.{
  ℕ, ◌≤◌, ◌≡◌, ◌≢◌, refl, ap, ap₂, sym, ◌∙◌, Bool, true, false, not, List, [], ◌∷◌, ◌++◌, arith,
  length, drop, last_n, last_n-all, subst, length-append, length-drop, drop-append_left,
  retain-append, retain-All, retain_none, All, All-of-retain, All-drop, All-impl, Distinct,
  Distinct-append, Distinct-drop, Distinct-retain,
}
use mathlib.Core.List.{append-nil}
use rings_node.Error.{ok, ok-inj}
use rings_node.VNode.{
  VirtualNode, data_type, vnode_data_max_len, Encoded, contains, trim_num, remains, extend, touch,
}

-- Both are data and both have one identifier: the guard of `extend` and `touch`.
abbrev pub SameData : VirtualNode → VirtualNode → Type 0
SameData v o = (v.kind ≡ data_type) × (o.kind ≡ data_type) × (v.did ≡ o.did)

trimmed :
    (xs ys : List Encoded)
    → length ys ≤ vnode_data_max_len
    → drop (trim_num (length xs) (length ys)) xs ++ ys ≡ last_n vnode_data_max_len (xs ++ ys)
trimmed xs ys h = rw (length-append xs ys) (sym (drop-append_left _ xs ys (omega arith)))

-- On data of one identifier, `extend` leaves the last 1024 entries of the old ones followed by the new
-- ones (given at most 1024 new ones), and keeps identifier and kind.
extend_lem :
    (v o : VirtualNode)
    → SameData v o
    → length o.payload ≤ vnode_data_max_len
    → extend v o ≡ ok (record v { payload = last_n vnode_data_max_len (v.payload ++ o.payload) })
unfolding extend
extend_lem v o s h = ground (arith, trimmed v.payload o.payload h)

-- Where `extend` succeeds, both sides are data of one identifier.
pub extend-SameData : (v o r : VirtualNode) → extend v o ≡ ok r → SameData v o
unfolding extend
extend-SameData v o r e = ground arith

pub touch_lem :
    (v o : VirtualNode)
    → SameData v o
    → length o.payload ≤ vnode_data_max_len
    → touch v o ≡ ok (record v { payload = last_n vnode_data_max_len (remains v o ++ o.payload) })
unfolding touch
touch_lem v o s h = ground (arith, trimmed (remains v o) o.payload h)

pub touch-SameData : (v o r : VirtualNode) → touch v o ≡ ok r → SameData v o
unfolding touch
touch-SameData v o r e = ground arith

-- The same, as the code computes it.
touch_kept :
    (v o : VirtualNode)
    → SameData v o
    → touch v o
      ≡ ok (record v {
        payload =
            drop (trim_num (length (remains v o)) (length o.payload)) (remains v o) ++ o.payload;
      })
unfolding touch
touch_kept v o s = ground arith

contains-false : (xs : List Encoded) (e : Encoded) → contains xs e ≡ false → All (λ x. e ≢ x) xs
unfolding contains
contains-false [] e h = tt
contains-false (x ∷ xs) e h = (λ q. ground (arith, eq_iff x e), contains-false xs e (ground arith))

contains_self :
    (xs ys : List Encoded)
    → All (λ x. contains ys x ≡ true) xs
    → All (λ x. not (contains ys x) ≡ false) xs
contains_self xs ys = All-impl _ _ xs (λ x h. rw h)

not-true : (b : Bool) → not b ≡ true → b ≡ false
not-true b h = ground arith

-- A `touch` that succeeds never repeats an entry: if neither side repeats one, the result does not, so a touched
-- entry that was there moves to the end.
pub touch-Distinct :
    (v o r : VirtualNode)
    → Distinct v.payload
    → Distinct o.payload
    → touch v o ≡ ok r
    → Distinct r.payload
unfolding touch
touch-Distinct v o r hv ho e =
    let payloads : r.payload
        ≡ drop (trim_num (length (remains v o)) (length o.payload)) (remains v o) ++ o.payload =
      ground arith in
    rw payloads (
      Distinct-append _ o.payload (Distinct-drop _ (remains v o) (Distinct-retain _ v.payload hv))
        ho
        (All-drop _ _ (remains v o) (
          All-impl _ _ (remains v o) (λ x h. contains-false o.payload x (not-true _ h))
            (All-of-retain (λ x. not (contains o.payload x)) v.payload))))

contains-All : (xs : List Encoded) → All (λ x. contains xs x ≡ true) xs
unfolding contains
contains-All [] = tt
contains-All (x ∷ xs) = (
  let same : str_eq x x ≡ true = (eq_iff x x).1 refl in ground (arith, same),
  All-impl _ _ xs (λ y h. ground (arith, h)) (contains-All xs),
)

-- Nothing of what `touch` kept is in `other`.
remains-append :
    (n : ℕ) (v o : VirtualNode)
    → remains (record v { payload = drop n (remains v o) ++ o.payload }) o ≡ drop n (remains v o)
remains-append n v o =
    retain-append keep (drop n (remains v o)) o.payload
    ∙ ap₂ ◌++◌ (retain-All keep _ (All-drop _ n (remains v o) (All-of-retain keep v.payload)))
        (retain_none keep o.payload (contains_self o.payload o.payload (contains-All o.payload)))
    ∙ append-nil _
  where
    keep : Encoded → Bool
    keep x = not (contains o.payload x)

-- Where `touch` succeeds with at most 1024 new entries, touching with the same entries again changes
-- nothing.
touch_twice :
    (v o r : VirtualNode)
    → length o.payload ≤ vnode_data_max_len
    → touch v o ≡ ok r
    → touch r o ≡ ok r
touch_twice v o r h e = subst (λ x. touch x o ≡ ok x) (ok-inj (sym (touch_kept v o s) ∙ e)) again
  where
    s : SameData v o
    s = touch-SameData v o r e

    n : ℕ
    n = trim_num (length (remains v o)) (length o.payload)

    r' : VirtualNode
    r' = record v { payload = drop n (remains v o) ++ o.payload }

    fits : length (drop n (remains v o) ++ o.payload) ≤ vnode_data_max_len
    fits =
        omega (arith, length-append (drop n (remains v o)) o.payload, length-drop n (remains v o))

    again : touch r' o ≡ ok r'
    again =
        touch_lem r' o s h
        ∙ ap (λ xs. ok (record v { payload = last_n vnode_data_max_len (xs ++ o.payload) }))
            (remains-append n v o)
        ∙ ap (λ xs. ok (record v { payload = xs })) (last_n-all vnode_data_max_len _ fits)
