-- ===== src/Kv.antt =====
-- `KvStorage` of rings-core/src/storage/persistence/kv.rs, as the storage of virtual nodes: keys are identifiers, written
-- as text. sled, bincode and the printing of identifiers are the record `Sled`, a parameter, over any type of
-- databases; `none` is an error of sled, which leaves the database as it was.
pub mod Laws
mod Examples
use rings_node.Base.{ℕ, Option, none, some, List, [], ◌∷◌}
use rings_node.Error.{
  Result, ok, err, panic, ◌>>=◌, sled_error, bincode_serialize, bincode_deserialize,
}
use rings_node.Did.{Did}
use rings_node.VNode.{VirtualNode}
use rings_node.Chord.Storage.{Persistence}
use rings_node.Session.{ok_or}

pub record Sled (Db : Type 0) : Type 0 where
  pub db_get : Db → List ℕ → Option (Option (List ℕ))
  pub db_insert : Db → List ℕ → List ℕ → Option Db
  pub db_remove : Db → List ℕ → Option Db
  pub db_clear : Db → Option Db
  pub db_len : Db → ℕ
  -- The entries that can be read.
  pub db_iter : Db → List (List ℕ × List ℕ)
  pub serialize : VirtualNode → Option (List ℕ)
  pub deserialize : List ℕ → Option VirtualNode
  -- `key.to_string().as_bytes()`, and `from_utf8` with `from_str`
  pub key_bytes : Did → List ℕ
  pub key_of_bytes : List ℕ → Option Did

-- `path` and the cache of sled are left out.
pub record KvStorage (Db : Type 0) : Type 0 where
  pub db : Db
  pub cap : ℕ

-- The results of both parses: an entry that fails is left out.
abbrev pub entry :
    Option Did → Option VirtualNode → List (Did × VirtualNode) → List (Did × VirtualNode)
entry (some k) (some v) rest = (k, v) ∷ rest
entry _ _ rest = rest

module _ {Db : Type 0} (sl : Sled Db) where
  abbrev pub read : Option (List ℕ) → Result (Option VirtualNode)
  read none = ok none
  read (some v) = do r ← ok_or (sl.deserialize v) (err bincode_deserialize); ok (some r)

  unfoldable pub get : KvStorage Db → Did → Result (Option VirtualNode)
  get self key = do v ← ok_or (sl.db_get self.db (sl.key_bytes key)) (err sled_error); read v

  unfoldable pub put : KvStorage Db → Did → VirtualNode → Result (KvStorage Db)
  put self key value = do
    bytes ← ok_or (sl.serialize value) (err bincode_serialize)
    db ← ok_or (sl.db_insert self.db (sl.key_bytes key) bytes) (err sled_error)
    ok (record self { db = db })

  unfoldable pub entries : List (List ℕ × List ℕ) → List (Did × VirtualNode)
  entries [] = []
  entries ((k, v) ∷ l) = entry (sl.key_of_bytes k) (sl.deserialize v) (entries l)

  unfoldable pub get_all : KvStorage Db → Result (List (Did × VirtualNode))
  unfolding entries
  get_all self = ok (entries (sl.db_iter self.db))

  unfoldable pub remove : KvStorage Db → Did → Result (KvStorage Db)
  remove self key = do
    db ← ok_or (sl.db_remove self.db (sl.key_bytes key)) (err sled_error)
    ok (record self { db = db })

  unfoldable pub clear : KvStorage Db → Result (KvStorage Db)
  clear self = do db ← ok_or (sl.db_clear self.db) (err sled_error); ok (record self { db = db })

  abbrev pub count : KvStorage Db → Result ℕ
  count self = ok (sl.db_len self.db)

  abbrev pub max_size : KvStorage Db → Result ℕ
  max_size self = ok self.cap

  abbrev pub total_size : KvStorage Db → Result ℕ
  total_size self = ok (sl.db_len self.db)

  -- The storage as the chord protocol uses it.
  abbrev pub persistence : Persistence (KvStorage Db)
  persistence = record { get = get; put = put; get_all = get_all; remove_item = remove }
