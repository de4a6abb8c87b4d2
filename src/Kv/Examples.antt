-- ===== src/Kv/Examples.antt =====
-- The theorem on the storage at lists of entries, whose keys are one number, and which hold only virtual nodes
-- without data.
use rings_node.Base.{ℕ, Option, none, some, List, [], ◌∷◌}
use rings_node.Did.{Did}
use rings_node.VNode.{VNodeType, Encoded, data_type}
use rings_node.Swarm.Transports.{get as got, put as with, delete as without}
use rings_node.Kv.{Sled}

abbrev Db : Type 0
Db = List (ℕ × List ℕ)

abbrev at_key : {A : Type 0} → (ℕ → A) → List ℕ → Option A
at_key f (k ∷ []) = some (f k)
at_key f _ = none

abbrev written : Did → List Encoded → VNodeType → Option (List ℕ)
written did [] data_type = some (did ∷ [])
written did _ _ = none

abbrev sled : Sled Db
sled = record {
  db_get = λ db. at_key (got db);
  db_insert = λ db k v. at_key (λ n. with db n v) k;
  db_remove = λ db. at_key (without db);
  db_clear = λ db. some [];
  db_len = λ db. 0;
  db_iter = λ db. [];
  serialize = λ v. written v.did v.payload v.kind;
  deserialize = at_key (λ did. record { did = did; payload = []; kind = data_type });
  key_bytes = λ did. did ∷ [];
  key_of_bytes = at_key (λ n. n);
}
