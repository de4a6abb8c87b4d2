-- ===== src/Kv/Laws.antt =====
-- `KvStorage` is a map from identifiers to virtual nodes, as the chord protocol assumes.
use rings_node.Base.{ℕ, ◌≡◌, ◌≢◌, none, some, List}
use rings_node.Did.{Did}
use rings_node.VNode.{VirtualNode}
use rings_node.Kv.{Sled}

-- sled is a map of bytes, bincode reads what it wrote, and identifiers print differently.
pub record IsSled {Db : Type 0} (sl : Sled Db) : Type 0 where
  pub get-insert :
      (db db' : Db) (k v : List ℕ)
      → sl.db_insert db k v ≡ some db'
      → sl.db_get db' k ≡ some (some v)
  pub get-remove :
      (db db' : Db) (k : List ℕ) → sl.db_remove db k ≡ some db' → sl.db_get db' k ≡ some none
  pub get-remove_ne :
      (db db' : Db) (j k : List ℕ)
      → j ≢ k
      → sl.db_remove db k ≡ some db'
      → sl.db_get db' j ≡ sl.db_get db j
  pub deserialize-serialize :
      (v : VirtualNode) (bytes : List ℕ)
      → sl.serialize v ≡ some bytes
      → sl.deserialize bytes ≡ some v
  pub key_bytes-inj : (j k : Did) → sl.key_bytes j ≡ sl.key_bytes k → j ≡ k
