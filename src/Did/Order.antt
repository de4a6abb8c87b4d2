-- ===== src/Did/Order.antt =====
-- What the comparisons of `BiasId` and `in_range` mean: clockwise distances from one origin.
use Prim.Native.Nat.{compare}
use rings_node.Base.{
  ◌+◌, ◌<◌, ◌≡◌, ◌≢◌, ◌↔◌, ap, Bool-cases, ==_iff, inl, inr, refl, true, arith, ◌==◌, ltb, leb,
}
use rings_node.Did.{Did, IsDid, sub, new_bias, to_did, cmp, bias_lt, bias_le, in_range}
use rings_node.Did.Ring.{add-sub}

-- Looking from a bias and back is the identity.
pub to_did-new_bias : (bias did : Did) → IsDid bias → IsDid did → to_did (new_bias bias did) ≡ did
unfolding to_did new_bias
to_did-new_bias bias did hb hd = add-sub did bias hd hb

pub did-new_bias : (bias did : Did) → (new_bias bias did).did ≡ sub did bias
unfolding new_bias
did-new_bias bias did = refl

-- Two identifiers seen from two origins compare by the distances from the origin of the left side.
pub cmp-new_bias :
    (c e a b : Did)
    → IsDid c
    → IsDid e
    → IsDid a
    → IsDid b
    → cmp (new_bias c a) (new_bias e b) ≡ compare (sub a c) (sub b c)
unfolding cmp new_bias
cmp-new_bias c e a b hc he ha hb = elim (Bool-cases (e == c)) [
  | inl h ↦ let q : e ≡ c = (==_iff e c).0 h in rw (h, q)
  | inr h ↦ rw h (ap (λ x. compare (sub a c) (sub x c)) (to_did-new_bias e b he hb))
]

-- With one origin no range is needed.
pub cmp-new_bias_self :
    (c a b : Did) → cmp (new_bias c a) (new_bias c b) ≡ compare (sub a c) (sub b c)
unfolding cmp new_bias
cmp-new_bias_self c a b = ground arith

pub bias_lt-new_bias :
    (c a b : Did) → bias_lt (new_bias c a) (new_bias c b) ≡ ltb (sub a c) (sub b c)
unfolding bias_lt
bias_lt-new_bias c a b = rw (cmp-new_bias_self c a b, bias_lt)

pub bias_le-new_bias :
    (c a b : Did) → bias_le (new_bias c a) (new_bias c b) ≡ leb (sub a c) (sub b c)
unfolding bias_le
bias_le-new_bias c a b = rw (cmp-new_bias_self c a b, bias_le)

module _ (x a b : Did) (hx : IsDid x) (ha : IsDid a) (hb : IsDid b) where
  arc_there :
      sub a a < sub x a → sub x a < sub b a → (x ≢ a) × (x ≢ b) × (sub x a + sub b x ≡ sub b a)
  unfolding sub
  arc_there p q = omega arith

  arc_back : x ≢ a → x ≢ b → sub x a + sub b x ≡ sub b a → (sub a a < sub x a) × (sub x a < sub b a)
  unfolding sub
  arc_back p q e = omega arith

  -- For three identifiers, `in_range` seen from `a` itself is the open arc of the ring from `a` clockwise to `b`: the
  -- identifiers other than the two ends on the way from `a` to `b`.
  in_range-arc : (in_range x a a b ≡ true) ↔ ((x ≢ a) × (x ≢ b) × (sub x a + sub b x ≡ sub b a))
  unfolding in_range
  in_range-arc =
      (λ h. arc_there (ground arith) (ground arith), λ h. ground (arith, arc_back h.0 h.1 h.2))
