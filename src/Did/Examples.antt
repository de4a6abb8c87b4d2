-- ===== src/Did/Examples.antt =====
-- The theorems on identifiers at inputs of the tests of rings-core/src/dht/did.rs, and small ones.
use rings_node.Base.{sort_by, ◌≡◌, refl, [], ◌∷◌}
use rings_node.Did.{Did, sub, add, neg, sort}

abbrev a : Did
a = 0x11E807fcc88dD319270493fB2e822e388Fe36ab0

abbrev b : Did
b = 0x999999cf1046e68e36E1aA2E0E07105eDDD1f08E

abbrev c : Did
c = 0xc0ffee254729296a45a3885639AC7E10F9d54979

neg-add_test : add (neg a) a ≡ 0
unfolding add neg
neg-add_test = refl

sort_test : sort (c ∷ b ∷ a ∷ []) b ≡ b ∷ c ∷ a ∷ []
unfolding sort sub sort_by
sort_test = refl
