-- ===== src/Chord/Storage/Sound.antt =====
-- The methods on virtual nodes change the storage and the cache of a node only.
use rings_node.Base.{◌≡◌, subst}
use rings_node.Error.{Result, ok, err, panic, >>=_steps, ok-inj}
use rings_node.Did.{Did}
use rings_node.VNode.{VirtualNode, VNodeOperation, Codec, op_did, operate}
use rings_node.Action.{PeerRingAction, nothing, some_vnode, some_node, remote_action, multi_actions}
use rings_node.Action
use rings_node.Chord.{PeerRing, find_successor}
use rings_node.Chord.Sound.{IsSound}
use rings_node.Chord.Storage.{
  Persistence, Cache, current, operated, vnode_operate, sync_vnode_with_successor, local_cache_set,
}

module _ {S C : Type 0} (own : Did) (r : PeerRing S C) (w : IsSound own r) where
  storage-Sound : (s : S) → IsSound own (record r { storage = s })
  storage-Sound s = record {
    named = w.named;
    successor_ok = w.successor_ok;
    successor_own = w.successor_own;
    finger_own = w.finger_own;
    fingers_ok = w.fingers_ok;
    predecessor_ok = w.predecessor_ok;
  }

  pub local_cache_set-Sound :
      (ch : Cache C) (v : VirtualNode) → IsSound own (local_cache_set ch r v)
  unfolding local_cache_set
  local_cache_set-Sound ch v = record {
    named = w.named;
    successor_ok = w.successor_ok;
    successor_own = w.successor_own;
    finger_own = w.finger_own;
    fingers_ok = w.fingers_ok;
    predecessor_ok = w.predecessor_ok;
  }

  -- The ring beside an action is sound.
  abbrev pub Leaves : (PeerRing S C × PeerRingAction) → Type 0
  Leaves p = IsSound own p.0

  transfer : (p q : PeerRing S C × PeerRingAction) → ok p ≡ ok q → Leaves p → Leaves q
  transfer p q e h = subst Leaves (ok-inj e) h

  operated-Sound :
      (st : Persistence S) (c : Codec) (vid : Did) (op : VNodeOperation)
      (found : Result PeerRingAction) (p : PeerRing S C × PeerRingAction)
      → operated st c r vid op found ≡ ok p
      → Leaves p
  unfolding operated
  operated-Sound st c vid op (ok (some_node n)) p e =
      let (this, e1, _) = >>=_steps (current c (st.get r.storage vid) op) _ e in
      let (vnode, e2, _) = >>=_steps (operate c this op) _ e1 in
      let (s, e3, _) = >>=_steps (st.put r.storage vid vnode) _ e2 in
      transfer _ p e3 (storage-Sound s)
  operated-Sound st c vid op (ok (remote_action n (Action.find_successor _))) p e = transfer _ p e w
  operated-Sound st c vid op (ok (remote_action n (Action.find_vnode _))) p e = cc
  operated-Sound st c vid op (ok (remote_action n (Action.find_vnode_for_operate _))) p e = cc
  operated-Sound st c vid op (ok (remote_action n (Action.notify _))) p e = cc
  operated-Sound st c vid op (ok (remote_action n (Action.sync_vnode_with_successor _))) p e = cc
  operated-Sound st c vid op (ok (remote_action n (Action.find_successor_for_connect _))) p e = cc
  operated-Sound st c vid op (ok (remote_action n (Action.find_successor_for_fix _))) p e = cc
  operated-Sound st c vid op (ok (remote_action n Action.check_predecessor)) p e = cc
  operated-Sound st c vid op (ok nothing) p e = cc
  operated-Sound st c vid op (ok (some_vnode _)) p e = cc
  operated-Sound st c vid op (ok (multi_actions _)) p e = cc
  operated-Sound st c vid op (err x) p e = cc
  operated-Sound st c vid op panic p e = cc

  pub vnode_operate-Sound :
      (st : Persistence S) (c : Codec) (op : VNodeOperation) (p : PeerRing S C × PeerRingAction)
      → vnode_operate st c r op ≡ ok p
      → Leaves p
  unfolding vnode_operate
  vnode_operate-Sound st c op p e =
      let (vid, e1, _) = >>=_steps (op_did c op) _ e in
      operated-Sound st c vid op (find_successor r vid) p e1

  pub sync_vnode_with_successor-Sound :
      (st : Persistence S) (d : Did) (p : PeerRing S C × PeerRingAction)
      → sync_vnode_with_successor st r d ≡ ok p
      → Leaves p
  unfolding sync_vnode_with_successor
  sync_vnode_with_successor-Sound st d p e =
      let (items, e1, _) = >>=_steps (st.get_all r.storage) _ e in transfer _ p e1 (storage-Sound _)
