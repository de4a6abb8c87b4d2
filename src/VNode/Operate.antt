-- ===== src/VNode/Operate.antt =====
-- `VirtualNode::operate` on data: when it succeeds and what it keeps.
use rings_node.Base.{
  ◌≤◌, ◌≡◌, ◌⊎◌, inl, inr, List, ◌++◌, arith, length, drop, length-append, length-drop,
}
use rings_node.Error.{ok}
use rings_node.VNode.{
  VirtualNode, VNodeOperation, overwrites, extends, touches, data_type, Codec, vnode_data_max_len,
  Encoded, trim_num, remains, overwrite, extend, touch, operate,
}
use rings_node.VNode.Extend.{SameData}

-- `op` carries the virtual node `o`.
abbrev pub OpOf : VNodeOperation → VirtualNode → Type 0
OpOf op o = (op ≡ overwrites o) ⊎ (op ≡ extends o) ⊎ (op ≡ touches o)

-- The identifier and the kind stay, and there are at most 1024 entries, or as many as came in.
abbrev pub KeepsData : VirtualNode → VirtualNode → VirtualNode → Type 0
KeepsData v o r =
    (r.did ≡ v.did)
    × (r.kind ≡ data_type)
    × ((length r.payload ≤ vnode_data_max_len) ⊎ (length r.payload ≤ length o.payload))

fits :
    (xs ys : List Encoded)
    → let zs = drop (trim_num (length xs) (length ys)) xs ++ ys in
      (length zs ≤ vnode_data_max_len) ⊎ (length zs ≤ length ys)
fits xs ys =
    let n = trim_num (length xs) (length ys) in
    omega (arith, length-append (drop n xs) ys, length-drop n xs)

overwrite-KeepsData : (v o r : VirtualNode) → overwrite v o ≡ ok r → SameData v o × KeepsData v o r
unfolding overwrite
overwrite-KeepsData v o r e = ground arith

extend-KeepsData : (v o r : VirtualNode) → extend v o ≡ ok r → SameData v o × KeepsData v o r
unfolding extend
extend-KeepsData v o r e = ground (arith, fits v.payload o.payload)

touch-KeepsData : (v o r : VirtualNode) → touch v o ≡ ok r → SameData v o × KeepsData v o r
unfolding touch
touch-KeepsData v o r e = ground (arith, fits (remains v o) o.payload)

overwrite-ok : (v o : VirtualNode) → SameData v o → (r : VirtualNode) × (overwrite v o ≡ ok r)
unfolding overwrite
overwrite-ok v o s = (o, ground arith)

-- What `extend` and `touch` build, from the old entries `xs` that `touch` filters first.
abbrev appended : VirtualNode → List Encoded → VirtualNode → VirtualNode
appended v xs o = record v {
  payload = drop (trim_num (length xs) (length o.payload)) xs ++ o.payload;
}

extend-ok : (v o : VirtualNode) → SameData v o → (r : VirtualNode) × (extend v o ≡ ok r)
unfolding extend
extend-ok v o s = (appended v v.payload o, ground arith)

touch-ok : (v o : VirtualNode) → SameData v o → (r : VirtualNode) × (touch v o ≡ ok r)
unfolding touch
touch-ok v o s = (appended v (remains v o) o, ground arith)

module _ (c : Codec) (v o : VirtualNode) (op : VNodeOperation) (h : OpOf op o) where
  -- `operate` with a virtual node succeeds exactly on data of one identifier. It keeps both, and leaves
  -- at most 1024 entries, or as many as came in if those are more.
  operate_lem :
      (SameData v o → (r : VirtualNode) × (operate c v op ≡ ok r))
      × ((r : VirtualNode) → operate c v op ≡ ok r → SameData v o × KeepsData v o r)
  unfolding operate
  operate_lem = elim h [
    | inl p ↦ rw p (overwrite-ok v o, overwrite-KeepsData v o)
    | inr (inl p) ↦ rw p (extend-ok v o, extend-KeepsData v o)
    | inr (inr p) ↦ rw p (touch-ok v o, touch-KeepsData v o)
  ]
