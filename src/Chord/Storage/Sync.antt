-- ===== src/Chord/Storage/Sync.antt =====
-- `sync_vnode_with_successor`: which virtual nodes are handed to the new successor, and which stay.
use rings_node.Base.{
  ◌≤◌, ◌≡◌, ◌≢◌, refl, ap, sym, ◌∙◌, inl, inr, List, [], ◌∷◌, none, arith, Bool-cases, ltb, ◌==◌,
  retain, All,
}
use rings_node.Error.{ok}
use rings_node.Did.{Did, sub}
use rings_node.Did.Order.{bias_lt-new_bias}
use rings_node.VNode.{VirtualNode}
use rings_node.Chord.{PeerRing, bias}
use rings_node.Chord.Storage.{
  Persistence, IsMap, beyond, pop_items, sync_action, sync_vnode_with_successor,
}

-- The items that lie strictly beyond the new successor.
abbrev pub leaving : Did → Did → List (Did × VirtualNode) → List (Did × VirtualNode)
leaving own new_successor = retain (λ i. ltb (sub new_successor own) (sub (i.0) own))

abbrev pub nodes_of : List (Did × VirtualNode) → List VirtualNode
nodes_of [] = []
nodes_of ((k, v) ∷ items) = v ∷ nodes_of items

module _ {S : Type 0} (st : Persistence S) (m : IsMap st)
    (removes : (s : S) (k : Did) → (s' : S) × (st.remove_item s k ≡ ok s')) where
  still_gone :
      (s s' : S) (j k : Did)
      → st.remove_item s k ≡ ok s'
      → st.get s j ≡ ok none
      → st.get s' j ≡ ok none
  still_gone s s' j k e g = elim (Bool-cases (j == k)) [
    | inl h ↦ let q : j ≡ k = ground arith in rw q (m.get-remove s s' k e)
    | inr h ↦ m.get-remove_ne s s' j k (ground arith) e ∙ g
  ]

  module _ {C : Type 0} (r : PeerRing S C) (new_successor : Did) where
    pop_items-gone :
        (items : List (Did × VirtualNode)) (s : S) (j : Did)
        → st.get s j ≡ ok none
        → st.get (pop_items st r new_successor items s).0 j ≡ ok none
    unfolding pop_items
    pop_items-gone [] s j g = g
    pop_items-gone ((k, v) ∷ items) s j g = elim (Bool-cases (beyond st r new_successor k)) [
      | inl h ↦
          let (s', e) = removes s k in
          rw (h, e) (pop_items-gone items s' j (still_gone s s' j k e g))
      | inr h ↦ rw h (pop_items-gone items s j g)
    ]

    pop_items-payloads :
        (items : List (Did × VirtualNode)) (s : S)
        → (pop_items st r new_successor items s).1 ≡ nodes_of (leaving r.did new_successor items)
    unfolding pop_items bias
    pop_items-payloads [] s = refl
    pop_items-payloads ((k, v) ∷ items) s =
        let far = bias_lt-new_bias r.did new_successor k in
        elim (Bool-cases (beyond st r new_successor k)) [
          | inl h ↦
              let (s', e) = removes s k in
              rw (h, e, sym far ∙ h) (ap (λ xs. v ∷ xs) (pop_items-payloads items s'))
          | inr h ↦ rw (h, sym far ∙ h) (pop_items-payloads items s)
        ]

    pop_items-left :
        (items : List (Did × VirtualNode)) (s : S)
        → All
            (λ i. st.get (pop_items st r new_successor items s).0 (i.0) ≡ ok none)
            (leaving r.did new_successor items)
    unfolding pop_items bias
    pop_items-left [] s = tt
    pop_items-left ((k, v) ∷ items) s =
        let far = bias_lt-new_bias r.did new_successor k in
        elim (Bool-cases (beyond st r new_successor k)) [
          | inl h ↦
              let (s', e) = removes s k in
              rw (h, e, sym far ∙ h)
                (pop_items-gone items s' k (m.get-remove s s' k e), pop_items-left items s')
          | inr h ↦ rw (h, sym far ∙ h) (pop_items-left items s)
        ]

    pop_items-stay :
        (items : List (Did × VirtualNode)) (s : S) (j : Did)
        → sub j r.did ≤ sub new_successor r.did
        → st.get (pop_items st r new_successor items s).0 j ≡ st.get s j
    unfolding pop_items bias
    pop_items-stay [] s j near = refl
    pop_items-stay ((k, v) ∷ items) s j near =
        let far = bias_lt-new_bias r.did new_successor k in
        elim (Bool-cases (beyond st r new_successor k)) [
          | inl h ↦
              let (s', e) = removes s k in
              let ne : j ≢ k = λ q. absurd (ground (arith, sym far ∙ h, q)) in
              rw (h, e) (pop_items-stay items s' j near ∙ m.get-remove_ne s s' j k ne e)
          | inr h ↦ rw h (pop_items-stay items s j near)
        ]

    -- With a storage that gives back what is put and whose removals succeed: the virtual nodes that lie
    -- strictly beyond the new successor, and only these, are handed to it, and none of them is in the
    -- storage any more; what lies at most as far as the new successor stays as it was, and so does the
    -- rest of the ring.
    pub sync_lem :
        (items : List (Did × VirtualNode))
        → st.get_all r.storage ≡ ok items
        → (s' : S) × (sync_vnode_with_successor st r new_successor
            ≡ ok (
              record r { storage = s' },
              sync_action new_successor (nodes_of (leaving r.did new_successor items)),
            ))
          × All (λ i. st.get s' (i.0) ≡ ok none) (leaving r.did new_successor items)
          × ((j : Did) → sub j r.did ≤ sub new_successor r.did → st.get s' j ≡ st.get r.storage j)
    unfolding sync_vnode_with_successor
    sync_lem items e = (
      (pop_items st r new_successor items r.storage).0,
      rw (e, pop_items-payloads items r.storage) refl,
      pop_items-left items r.storage,
      pop_items-stay items r.storage,
    )
