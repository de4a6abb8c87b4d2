-- ===== src/Finger/Invariant.antt =====
-- The well-formedness of a finger table, and the powers of two that its slots stand for.
use native.Mathlib.Nat.{pow-le-pow_right, pow-suc}
use rings_node.Base.{
  ℕ, suc, ◌+◌, ◌≤◌, ◌<◌, ◌^◌, ◌*◌, ◌≡◌, none, some, arith, length, get_elem?, length-replicate,
  get_elem?-replicate,
}
use rings_node.Did.{Did, IsDid, ring_size, sub, from_big_uint}
use rings_node.Finger.{FingerTable, new}

-- `size` slots, at most 160; a node in slot `k` lies at least `2 ^ k` steps from the owner.
pub record IsFingerTable (t : FingerTable) : Type 0 where
  pub own : IsDid t.did
  pub sized : length t.finger ≡ t.size
  pub bounded : t.size ≤ 160
  pub reach :
      (k : ℕ) (v : Did) → get_elem? t.finger k ≡ some (some v) → IsDid v × (2 ^ k ≤ sub v t.did)

pub pow_mono : (i j : ℕ) → i ≤ j → 2 ^ i ≤ 2 ^ j
pow_mono i j h = pow-le-pow_right (omega arith) h

pub pow_double : (k : ℕ) → 2 ^ (k + 1) ≡ 2 * 2 ^ k
pow_double k = let e : k + 1 ≡ suc k = omega arith in rw (e, pow-suc) (omega arith)

pub pow-lt-ring_size : (k : ℕ) → k < 160 → 2 ^ k < ring_size
pow-lt-ring_size k h = omega (arith, pow_mono k 159 (omega arith))

pub start-eq-pow : (k : ℕ) → k < 160 → from_big_uint (2 ^ k) ≡ 2 ^ k
unfolding from_big_uint
start-eq-pow k h = omega (arith, pow-lt-ring_size k h)

pub new-IsFingerTable :
    (did : Did) (size : ℕ) → IsDid did → size ≤ 160 → IsFingerTable (new did size)
unfolding new
new-IsFingerTable did size hd hs = record {
  own = hd;
  sized = length-replicate size none;
  bounded = hs;
  reach = λ k v e. cc (get_elem?-replicate size k none e);
}
