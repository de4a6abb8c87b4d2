-- ===== src/Chord/Storage/Routes.antt =====
-- Storing and looking up: `vnode_operate` and `vnode_lookup` together.
use rings_node.Base.{◌<◌, ◌≡◌, refl, ap, sym, ◌⊎◌, inl, inr, subst}
use rings_node.Error.{ok, ok-inj, >>=_steps}
use rings_node.Did.{Did, sub}
use rings_node.Finger.Closest.{Closest}
use rings_node.Successor
use rings_node.VNode.{VirtualNode, VNodeOperation, Codec, op_did, operate}
use rings_node.Action.{PeerRingAction, nothing, some_vnode, some_node, remote_action}
use rings_node.Action
use rings_node.Chord.{PeerRing, find_successor}
use rings_node.Chord.Ring.{IsPeerRing, IsUnlocked}
use rings_node.Chord.Lookup.{find_successor_returns}
use rings_node.Chord.Storage.{
  Persistence, IsMap, looked_up, vnode_lookup, current, operated, vnode_operate,
}

module _ {S C : Type 0} (st : Persistence S) (c : Codec) where
  -- The storage does not take part in a lookup.
  find_successor-storage :
      (r : PeerRing S C) (s : S) (did : Did)
      → find_successor (record r { storage = s }) did ≡ find_successor r did
  unfolding find_successor rings_node.Chord.bias
  find_successor-storage r s did = refl

  put-found :
      (r : PeerRing S C) (s s' : S) (vid n : Did) (v : VirtualNode)
      → IsMap st
      → find_successor r vid ≡ ok (some_node n)
      → st.put s vid v ≡ ok s'
      → vnode_lookup st (record r { storage = s' }) vid ≡ ok (some_vnode v)
  unfolding vnode_lookup looked_up
  put-found r s s' vid n v m f g =
      rw (find_successor-storage r s' vid, f, m.get-put s s' vid v g) refl

  -- With a storage that gives back what is put: where the node itself is responsible, an operation that
  -- succeeds leaves what the lookup finds there afterwards, which is the operation on what was stored
  -- before or on a default virtual node.
  pub operate_then_lookup :
      (r r' : PeerRing S C) (op : VNodeOperation) (vid n : Did) (a : PeerRingAction)
      → IsMap st
      → op_did c op ≡ ok vid
      → find_successor r vid ≡ ok (some_node n)
      → vnode_operate st c r op ≡ ok (r', a)
      → (v : VirtualNode) × (vnode_lookup st r' vid ≡ ok (some_vnode v))
        × (a ≡ nothing)
        × ((this : VirtualNode) × (current c (st.get r.storage vid) op ≡ ok this)
            × (operate c this op ≡ ok v))
  unfolding vnode_operate vnode_lookup operated looked_up
  operate_then_lookup r r' op vid n a m d f e =
      let e1 : operated st c r vid op (ok (some_node n)) ≡ ok (r', a) = rw (d, f) at e in
      let (this, e2, p) = >>=_steps (current c (st.get r.storage vid) op) _ e1 in
      let (v, e3, q) = >>=_steps (operate c this op) _ e2 in
      let (s', e4, g) = >>=_steps (st.put r.storage vid v) _ e3 in
      let same : record r { storage = s' } ≡ r' = ap (λ x. x.0) (ok-inj e4) in
      (
        v,
        subst (λ x. vnode_lookup st x vid ≡ ok (some_vnode v)) same
            (put-found r r.storage s' vid n v m f g),
        ap (λ x. x.1) (sym (ok-inj e4)),
        (this, p, q),
      )

  -- On a well-formed unlocked ring either the node itself is responsible, or the lookup and the operation
  -- are passed on to the same node, the closest finger before the identifier, which lies beyond the
  -- nearest successor; the operation then changes nothing here.
  same_route :
      (r : PeerRing S C) (op : VNodeOperation) (vid : Did)
      → IsPeerRing r
      → IsUnlocked r
      → op_did c op ≡ ok vid
      → ((n : Did) × (find_successor r vid ≡ ok (some_node n)))
        ⊎ ((n : Did) × (vnode_lookup st r vid ≡ ok (remote_action n (Action.find_vnode vid)))
            × (vnode_operate st c r op ≡ ok (r, remote_action n (Action.find_vnode_for_operate op)))
            × Closest r.finger.value vid 160 n
            × (sub (Successor.min_did r.successor_seq.value) r.did < sub vid r.did))
  unfolding vnode_operate vnode_lookup operated looked_up
  same_route r op vid w u d = elim (find_successor_returns r vid w u) [
    | inl (n, e, _) ↦ inl (n, e)
    | inr (n, e, close, far, _) ↦ inr (n, rw e refl, rw (d, e) refl, close, far)
  ]
