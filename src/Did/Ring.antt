-- ===== src/Did/Ring.antt =====
-- The arithmetic of did.rs: `add`, `neg` and `sub` around the ring.
use rings_node.Base.{◌+◌, ◌-◌, ◌≤◌, ◌<◌, ◌≡◌, ◌≢◌, arith, ltb, if◌then◌else◌}
use rings_node.Did.{Did, IsDid, ring_size, add, neg, sub}

pub add-IsDid : (a b : Did) → IsDid (add a b)
unfolding add
add-IsDid a b = omega arith

pub sub-IsDid : (a b : Did) → IsDid (sub a b)
unfolding sub
sub-IsDid a b = omega arith

pub neg-IsDid : (a : Did) → IsDid (neg a)
unfolding neg
neg-IsDid a = omega arith

-- The clockwise distance without remainders.
pub sub_lem :
    (a b : Did) → IsDid a → IsDid b → sub a b ≡ (if ltb a b then a + ring_size - b else a - b)
unfolding sub
sub_lem a b ha hb = ground arith

pub neg-neg : (a : Did) → IsDid a → neg (neg a) ≡ a
unfolding neg
neg-neg a ha = omega arith

pub add_comm : (a b : Did) → add a b ≡ add b a
unfolding add
add_comm a b = omega arith

pub add_assoc : (a b c : Did) → add (add a b) c ≡ add a (add b c)
unfolding add
add_assoc a b c = omega arith

pub sub_self : (a : Did) → IsDid a → sub a a ≡ 0
unfolding sub
sub_self a ha = omega arith

pub add-sub : (a b : Did) → IsDid a → IsDid b → add (sub a b) b ≡ a
unfolding add sub
add-sub a b ha hb = omega arith

pub sub-pos : (a b : Did) → IsDid a → IsDid b → a ≢ b → 0 < sub a b
unfolding sub
sub-pos a b ha hb ne = omega arith

pub sub_inj : (a b c : Did) → IsDid a → IsDid b → IsDid c → sub a c ≡ sub b c → a ≡ b
unfolding sub
sub_inj a b c ha hb hc e = omega arith

-- The way from c to b is the way from c to a and on to b, if a does not lie beyond b.
pub sub_split :
    (a b c : Did) → IsDid a → IsDid b → IsDid c → sub a c ≤ sub b c → sub b c ≡ sub a c + sub b a
unfolding sub
sub_split a b c ha hb hc h = omega arith
