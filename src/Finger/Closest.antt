-- ===== src/Finger/Closest.antt =====
-- `FingerTable::closest`: the node that a lookup is passed to, and how far that gets it.
use rings_node.Base.{
  ℕ, zero, suc, ◌+◌, ◌*◌, ◌≤◌, ◌<◌, ◌^◌, ◌≡◌, ◌≢◌, refl, ap, sym, ◌∙◌, ◌⊎◌, inl, inr, Bool, Option,
  none, some, arith, ltb, ◌==◌, length, get_elem?, get_elem?-lt, lt-of-get_elem?, Bool-cases, true,
  false,
}
use rings_node.Did.{Did, IsDid, sub, bias_of, bias_lt}
use rings_node.Did.Order.{bias_lt-new_bias}
use rings_node.Did.Ring.{sub_split}
use rings_node.Error.{ok}
use rings_node.Finger.{FingerTable, closest_loop, closest}
use rings_node.Finger.Invariant.{IsFingerTable, pow_mono, pow_double}

-- No node in the slots from `lo` to `hi` lies nearer to the owner than `did`.
abbrev pub NonePrecedes : FingerTable → Did → ℕ → ℕ → Type 0
NonePrecedes t did lo hi =
    (j : ℕ) (v : Did)
    → lo ≤ j
    → j < hi
    → get_elem? t.finger j ≡ some (some v)
    → sub did t.did ≤ sub v t.did

-- `r` is the owner and no finger below `n` precedes `did`; or `r` is the highest finger that does.
abbrev pub Closest : FingerTable → Did → ℕ → Did → Type 0
Closest t did n r =
    ((r ≡ t.did) × NonePrecedes t did 0 n)
    ⊎ ((k : ℕ) × (k < n)
        × (get_elem? t.finger k ≡ some (some r))
        × (sub r t.did < sub did t.did)
        × NonePrecedes t did (k + 1) n)

module _ (t : FingerTable) (did : Did) where
  NonePrecedes-suc :
      (lo i : ℕ)
      → NonePrecedes t did lo i
      → ((v : Did) → get_elem? t.finger i ≡ some (some v) → sub did t.did ≤ sub v t.did)
      → NonePrecedes t did lo (suc i)
  NonePrecedes-suc lo i h top j v l u e = elim (Bool-cases (j == i)) [
    | inl q ↦ let p : j ≡ i = ground arith in top v (ap (get_elem? t.finger) (sym p) ∙ e)
    | inr q ↦ h j v l (ground arith) e
  ]

  Closest-suc :
      (i : ℕ) (r : Did)
      → Closest t did i r
      → ((v : Did) → get_elem? t.finger i ≡ some (some v) → sub did t.did ≤ sub v t.did)
      → Closest t did (suc i) r
  Closest-suc i r (inl (e, h)) top = inl (e, NonePrecedes-suc 0 i h top)
  Closest-suc i r (inr (k, l, e, near, h)) top =
      inr (k, omega arith, e, near, NonePrecedes-suc (k + 1) i h top)

  closest_loop_lem :
      (n : ℕ)
      → n ≤ length t.finger
      → (r : Did) × (closest_loop t (bias_of did t.did) n ≡ ok r) × Closest t did n r
  unfolding closest_loop
  closest_loop_lem zero h = (t.did, refl, inl (refl, λ j v l u e. absurd (omega arith)))
  closest_loop_lem (suc i) h =
      let (slot, e) = get_elem?-lt t.finger i h in by_slot slot e (closest_loop_lem i (omega arith))
    where
      by_test :
          (v : Did) (b : Bool)
          → get_elem? t.finger i ≡ some (some v)
          → bias_lt (bias_of v t.did) (bias_of did t.did) ≡ b
          → ltb (sub v t.did) (sub did t.did) ≡ b
          → (r : Did) × (closest_loop t (bias_of did t.did) i ≡ ok r) × Closest t did i r
          → (r : Did) × (closest_loop t (bias_of did t.did) (suc i) ≡ ok r)
            × Closest t did (suc i) r
      by_test v true e p q (r, c, f) = (
        v,
        rw (e, closest_loop, p),
        inr (i, omega arith, e, ground arith, λ j w l u g. absurd (omega arith)),
      )
      by_test v false e p q (r, c, f) =
          (r, rw (e, closest_loop, p) c, Closest-suc i r f (λ w g. ground arith))

      by_slot :
          (slot : Option Did)
          → get_elem? t.finger i ≡ some slot
          → (r : Did) × (closest_loop t (bias_of did t.did) i ≡ ok r) × Closest t did i r
          → (r : Did) × (closest_loop t (bias_of did t.did) (suc i) ≡ ok r)
            × Closest t did (suc i) r
      by_slot none e (r, c, f) = (r, rw (e, closest_loop) c, Closest-suc i r f (λ v g. cc))
      by_slot (some v) e ih =
          by_test v (ltb (sub v t.did) (sub did t.did)) e
            (unfold bias_of in bias_lt-new_bias t.did v did) refl ih

-- `closest` on a well-formed table does not panic. It returns the owner when no finger lies nearer to
-- the owner than `did`, and otherwise the finger of the highest index that does.
pub closest_lem :
    (t : FingerTable) (did : Did)
    → IsFingerTable t
    → (r : Did) × (closest t did ≡ ok r) × Closest t did t.size r
unfolding closest
closest_lem t did w = closest_loop_lem t did t.size (omega (arith, w.sized))

-- What a finger leaves of the way to `did`.
finger_rest :
    (t : FingerTable) (did r : Did) (k : ℕ)
    → IsFingerTable t
    → IsDid did
    → get_elem? t.finger k ≡ some (some r)
    → sub r t.did < sub did t.did
    → (sub did t.did ≡ sub r t.did + sub did r) × (2 ^ k ≤ sub r t.did)
finger_rest t did r k w d g near =
    let (i, far) = w.reach k r g in (sub_split r did t.did i d w.own (omega arith), far)

-- A next hop other than the owner is a node of the ring, strictly nearer to `did`.
pub Closest-progress :
    (t : FingerTable) (did r : Did) (n : ℕ)
    → IsFingerTable t
    → IsDid did
    → Closest t did n r
    → r ≢ t.did
    → IsDid r × (sub did r < sub did t.did)
Closest-progress t did r n w d (inl (q, h)) ne = absurd (ne q)
Closest-progress t did r n w d (inr (k, l, g, near, h)) ne =
    ((w.reach k r g).0, omega (arith, finger_rest t did r k w d g near, pow_mono 0 k (omega arith)))

-- Slot `k` is the one for the distance of `did`, and it holds a node before `did`.
pub record IsCovered (t : FingerTable) (did : Did) : Type 0 where
  pub slot : ℕ
  pub node : Did
  pub low : 2 ^ slot ≤ sub did t.did
  pub high : sub did t.did < 2 ^ (slot + 1)
  pub held : get_elem? t.finger slot ≡ some (some node)
  pub before : sub node t.did < sub did t.did

-- The logarithmic bound of Chord, for one hop: if the distance of `did` lies in `[2 ^ k, 2 ^ (k + 1))`
-- and slot `k` holds a node before `did`, then the hop at least halves the distance that is left.
pub Closest-halves :
    (t : FingerTable) (did r : Did)
    → IsFingerTable t
    → IsDid did
    → IsCovered t did
    → Closest t did t.size r
    → 2 * sub did r ≤ sub did t.did
Closest-halves t did r w d c (inl (q, h)) = absurd (
    omega (
      arith,
      c.before,
      h c.slot c.node (omega arith) (omega (arith, lt-of-get_elem? t.finger c.slot c.held, w.sized))
          c.held,
    ))
Closest-halves t did r w d c (inr (j, l, g, before, h)) = elim (Bool-cases (ltb j c.slot)) [
  | inl low ↦ absurd (
      omega (
        arith,
        c.before,
        h c.slot c.node (ground arith)
            (omega (arith, lt-of-get_elem? t.finger c.slot c.held, w.sized)) c.held,
      ))
  | inr high ↦ omega (
    arith,
    finger_rest t did r j w d g before,
    pow_mono c.slot j (ground arith),
    pow_double c.slot,
    c.high,
  )
]
