-- ===== src/Chord/Storage/Examples.antt =====
-- The theorems on storage with an association list for the storage.
use rings_node.Base.{
  ◌≤◌, ◌≡◌, ◌≢◌, refl, ap, not, Option, none, some, List, [], ◌∷◌, arith, ◌==◌, ==_iff,
  if◌then◌else◌, retain, All, sym, ◌∙◌,
}
use rings_node.Error.{ok, err, ok-inj, decode, deserialize}
use rings_node.Did.{Did, sub}
use rings_node.Successor
use rings_node.VNode.{
  VirtualNode, VNodeOperation, extends, data_type, Codec, op_did, operate, extend,
}
use rings_node.Action.{nothing, some_vnode, some_node}
use rings_node.Chord.{PeerRing, new_with_storage, find_successor, bias}
use rings_node.Chord.Ring.{IsPeerRing, IsUnlocked, new_with_storage-IsPeerRing}
use rings_node.Chord.Storage.{
  Persistence, IsMap, vnode_lookup, current, operated, vnode_operate, sync_action,
  sync_vnode_with_successor,
}
use rings_node.Chord.Storage.Routes.{operate_then_lookup}
use rings_node.Chord.Storage.Sync.{leaving, nodes_of, sync_lem}

abbrev Items : Type 0
Items = List (Did × VirtualNode)

abbrev get : Items → Did → Option VirtualNode
get [] k = none
get ((j, v) ∷ s) k = if j == k then some v else get s k

abbrev without : Items → Did → Items
without s k = retain (λ i. not (i.0 == k)) s

abbrev assoc : Persistence Items
assoc = record {
  get = λ s k. ok (get s k);
  put = λ s k v. ok ((k, v) ∷ without s k);
  get_all = λ s. ok s;
  remove_item = λ s k. ok (without s k);
}

get-without : (s : Items) (k : Did) → get (without s k) k ≡ none
get-without [] k = refl
get-without ((j, v) ∷ s) k = ground (arith, get-without s k)

get-without_ne : (s : Items) (j k : Did) → j ≢ k → get (without s k) j ≡ get s j
get-without_ne [] j k ne = refl
get-without_ne ((i, v) ∷ s) j k ne = ground (arith, get-without_ne s j k ne)

get-same : (s : Items) (k : Did) (v : VirtualNode) → get ((k, v) ∷ s) k ≡ some v
get-same s k v = rw ((==_iff k k).1 refl)

assoc-IsMap : IsMap assoc
assoc-IsMap = record {
  get-put =
      λ s s' k v e. ap (λ x. ok (get x k)) (sym (ok-inj e)) ∙ ap ok (get-same (without s k) k v);
  get-remove = λ s s' k e. ap (λ x. ok (get x k)) (sym (ok-inj e)) ∙ ap ok (get-without s k);
  get-remove_ne =
      λ s s' j k ne e. ap (λ x. ok (get x j)) (sym (ok-inj e)) ∙ ap ok (get-without_ne s j k ne);
}

abbrev codec : Codec
codec = record {
  hash = λ s. s;
  h160_from_str = λ s. ok 5;
  decode_string = λ s. err decode;
  to_json = λ r. ok "{}";
  from_json = λ s. err deserialize;
}

abbrev near : VirtualNode
near = record { did = 15; payload = "a" ∷ []; kind = data_type }

abbrev far : VirtualNode
far = record { did = 30; payload = "b" ∷ []; kind = data_type }

unfoldable ring : PeerRing Items (Unit {0})
unfolding new_with_storage
ring = new_with_storage 10 3 ((15, near) ∷ (30, far) ∷ []) tt

ring-IsPeerRing : IsPeerRing ring
unfolding ring new_with_storage
ring-IsPeerRing =
    new_with_storage-IsPeerRing 10 3 ((15, near) ∷ (30, far) ∷ []) tt (omega arith) (omega arith)

ring-IsUnlocked : IsUnlocked ring
unfolding ring new_with_storage
ring-IsUnlocked = record { finger_free = refl; successor_free = refl; predecessor_free = refl }

abbrev more : VNodeOperation
more = extends (record { did = 15; payload = "c" ∷ []; kind = data_type })

abbrev both : VirtualNode
both = record { did = 15; payload = "a" ∷ "c" ∷ []; kind = data_type }

here : find_successor ring 15 ≡ ok (some_node 10)
unfolding ring new_with_storage find_successor bias Successor.new Successor.is_empty
    Successor.min_did
here = refl

stored :
    vnode_operate assoc codec ring more
    ≡ ok (record ring { storage = (15, both) ∷ (30, far) ∷ [] }, nothing)
unfolding ring new_with_storage find_successor bias Successor.new Successor.is_empty
    Successor.min_did vnode_operate operated op_did operate extend
stored = refl

operate_then_lookup_example :
    (v : VirtualNode) × (vnode_lookup assoc
        (record ring { storage = (15, both) ∷ (30, far) ∷ [] })
        15
      ≡ ok (some_vnode v))
    × (nothing ≡ nothing)
    × ((this : VirtualNode) × (current codec (assoc.get ring.storage 15) more ≡ ok this)
        × (operate codec this more ≡ ok v))
unfolding op_did
operate_then_lookup_example =
    operate_then_lookup assoc codec ring (record ring { storage = (15, both) ∷ (30, far) ∷ [] })
      more 15 10 nothing assoc-IsMap refl here stored

sync_lem_example :
    (s' : Items) × (sync_vnode_with_successor assoc ring 20
      ≡ ok (
        record ring { storage = s' },
        sync_action 20 (nodes_of (leaving ring.did 20 ring.storage)),
      ))
    × All (λ i. ok (get s' (i.0)) ≡ ok none) (leaving ring.did 20 ring.storage)
    × ((j : Did) → sub j ring.did ≤ sub 20 ring.did → ok (get s' j) ≡ ok (get ring.storage j))
sync_lem_example = sync_lem assoc assoc-IsMap (λ s k. (without s k, refl)) ring 20 ring.storage refl

sync_test : leaving ring.did 20 ring.storage ≡ (30, far) ∷ []
unfolding ring new_with_storage sub
sync_test = refl
