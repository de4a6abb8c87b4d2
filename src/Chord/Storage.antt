-- ===== src/Chord/Storage.antt =====
-- The `ChordStorage` methods of rings-core/src/dht/chord.rs: virtual nodes in the storage of the node
-- that is responsible for them. The storage is `PersistenceStorageReadAndWrite` and
-- `PersistenceStorageRemove` of rings-core/src/storage/persistence/mod.rs, a parameter; an operation that
-- fails leaves it as it was. The cache is `MemStorage`, a parameter too.
pub mod Routes
pub mod Sync
pub mod Sound
mod Examples
use rings_node.Base.{
  Bool, true, false, ◌||◌, ◌&&◌, ◌≡◌, ◌≢◌, Option, none, some, List, [], ◌∷◌, if◌then◌else◌,
}
use rings_node.Error.{Result, ok, err, panic, ◌>>=◌, peer_ring_unexpected_action}
use rings_node.Did.{Did, bias_lt}
use rings_node.VNode.{VirtualNode, VNodeOperation, Codec, op_did, gen_default_vnode, operate}
use rings_node.Action.{PeerRingAction, nothing, some_vnode, some_node, remote_action}
use rings_node.Action
use rings_node.Chord.{PeerRing, find_successor, bias}

pub record Persistence (S : Type 0) : Type 0 where
  pub get : S → Did → Result (Option VirtualNode)
  pub put : S → Did → VirtualNode → Result S
  pub get_all : S → Result (List (Did × VirtualNode))
  pub remove_item : S → Did → Result S

-- What is put is got, what is removed is gone, and both leave the other keys alone.
pub record IsMap {S : Type 0} (st : Persistence S) : Type 0 where
  pub get-put :
      (s s' : S) (k : Did) (v : VirtualNode) → st.put s k v ≡ ok s' → st.get s' k ≡ ok (some v)
  pub get-remove : (s s' : S) (k : Did) → st.remove_item s k ≡ ok s' → st.get s' k ≡ ok none
  pub get-remove_ne :
      (s s' : S) (j k : Did) → j ≢ k → st.remove_item s k ≡ ok s' → st.get s' j ≡ st.get s j

pub record Cache (C : Type 0) : Type 0 where
  pub cache_set : C → Did → VirtualNode → C
  pub cache_get : C → Did → Option VirtualNode

-- `vnode_lookup` on what the own storage gives.
abbrev pub found : Result (Option VirtualNode) → Result PeerRingAction
found (ok (some v)) = ok (some_vnode v)
found (ok none) = ok nothing
found (err _) = ok nothing
found panic = panic

-- The stored virtual node, or a default one.
abbrev pub current : Codec → Result (Option VirtualNode) → VNodeOperation → Result VirtualNode
current c (ok (some v)) op = ok v
current c (ok none) op = gen_default_vnode c op
current c (err _) op = gen_default_vnode c op
current c panic op = panic

abbrev pub sync_action : Did → List VirtualNode → PeerRingAction
sync_action new_successor [] = nothing
sync_action new_successor (v ∷ popped) =
    remote_action new_successor (Action.sync_vnode_with_successor (v ∷ popped))

module _ {S C : Type 0} (st : Persistence S) where
  unfoldable pub looked_up : PeerRing S C → Did → Result PeerRingAction → Result PeerRingAction
  looked_up self vid (ok (some_node _)) = found (st.get self.storage vid)
  looked_up self vid (ok (remote_action n (Action.find_successor id))) =
      ok (remote_action n (Action.find_vnode id))
  looked_up self vid (ok _) = err peer_ring_unexpected_action
  looked_up self vid (err e) = err e
  looked_up self vid panic = panic

  unfoldable pub vnode_lookup : PeerRing S C → Did → Result PeerRingAction
  unfolding looked_up
  vnode_lookup self vid = looked_up self vid (find_successor self vid)

  module _ (c : Codec) where
    unfoldable pub operated :
        PeerRing S C
        → Did
        → VNodeOperation
        → Result PeerRingAction
        → Result (PeerRing S C × PeerRingAction)
    operated self vid op (ok (some_node _)) = do
      this ← current c (st.get self.storage vid) op
      vnode ← operate c this op
      storage' ← st.put self.storage vid vnode
      ok (record self { storage = storage' }, nothing)
    operated self vid op (ok (remote_action n (Action.find_successor _))) =
        ok (self, remote_action n (Action.find_vnode_for_operate op))
    operated self vid op (ok _) = err peer_ring_unexpected_action
    operated self vid op (err e) = err e
    operated self vid op panic = panic

    unfoldable pub vnode_operate :
        PeerRing S C → VNodeOperation → Result (PeerRing S C × PeerRingAction)
    unfolding operated
    vnode_operate self op = do vid ← op_did c op; operated self vid op (find_successor self vid)

  -- `self.bias(*vid) > self.bias(new_successor)`
  abbrev pub beyond : PeerRing S C → Did → Did → Bool
  beyond self new_successor vid = bias_lt (bias self new_successor) (bias self vid)

  -- The loop of `sync_vnode_with_successor`: the storage it leaves, and what it popped (`data`).
  unfoldable pub pop_items :
      PeerRing S C → Did → List (Did × VirtualNode) → S → S × List VirtualNode
  pop_items self new_successor [] s = (s, [])
  pop_items self new_successor ((vid, vnode) ∷ items) s =
      if beyond self new_successor vid
      then elim (st.remove_item s vid) [
        | ok s' ↦ let rest = pop_items self new_successor items s' in (rest.0, vnode ∷ rest.1)
        | _ ↦ pop_items self new_successor items s
      ]
      else pop_items self new_successor items s

  unfoldable pub sync_vnode_with_successor :
      PeerRing S C → Did → Result (PeerRing S C × PeerRingAction)
  unfolding pop_items
  sync_vnode_with_successor self new_successor = do
    all_items ← st.get_all self.storage
    let (storage', popped) = pop_items self new_successor all_items self.storage
    ok (record self { storage = storage' }, sync_action new_successor popped)

module _ {S C : Type 0} (ch : Cache C) where
  unfoldable pub local_cache_set : PeerRing S C → VirtualNode → PeerRing S C
  local_cache_set self vnode = record self { cache = ch.cache_set self.cache vnode.did vnode }

  unfoldable pub local_cache_get : PeerRing S C → Did → Option VirtualNode
  local_cache_get self vid = ch.cache_get self.cache vid
