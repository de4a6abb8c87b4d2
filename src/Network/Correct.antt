-- ===== src/Network/Correct.antt =====
-- The answer of a lookup, and the nodes of the ring.
use rings_node.Base.{
  ◌≤◌, ◌≡◌, ◌≢◌, sym, ◌∙◌, inl, inr, arith, Bool-cases, ==_iff, ◌==◌, false, false≢true, subst,
}
use rings_node.Error.{ok, ok-inj}
use rings_node.Did.{Did, IsDid, sub}
use rings_node.Did.Ring.{sub_split}
use rings_node.Successor
use rings_node.Successor.Nearest.{min_did-IsDid, min_did-other}
use rings_node.Action.{some_node, remote_action, RemoteAction}
use rings_node.Chord.{PeerRing, find_successor}
use rings_node.Chord.Ring.{IsPeerRing, IsUnlocked, own_did}
use rings_node.Chord.Lookup.{find_successor_returns}

-- `n` is the first of the nodes at or after `did`, clockwise.
pub record IsSuccessor (Node : Did → Type 0) (did n : Did) : Type 0 where
  pub is_node : Node n
  pub first : (m : Did) → Node m → sub n did ≤ sub m did

-- The nodes between `a` and `n`: none.
abbrev pub NextNode : (Did → Type 0) → Did → Did → Type 0
NextNode Node a n = Node n × ((m : Did) → Node m → m ≢ a → sub n a ≤ sub m a)

module _ (a n m did : Did) (ia : IsDid a) (i : IsDid n) (im : IsDid m) (id : IsDid did) where
  behind : did ≢ a → n ≢ a → sub did a ≤ sub n a → m ≡ a → sub n did ≤ sub m did
  unfolding sub
  behind ne nn le e = omega arith

  arc_split :
      did ≢ a → n ≢ a → sub did a ≤ sub n a → (m ≢ a → sub n a ≤ sub m a) → sub n did ≤ sub m did
  arc_split ne nn le next = elim (Bool-cases (m == a)) [
    | inl h ↦ behind ne nn le (ground arith)
    | inr h ↦
        let beyond = next (λ e. false≢true (sym h ∙ (==_iff m a).1 e)) in
        omega (
          arith,
          beyond,
          le,
          sub_split did n a id i ia le,
          sub_split did m a id im ia (omega (arith, le, beyond)),
        )
  ]

answer_ne : {n m : Did} {a : RemoteAction} → some_node n ≢ remote_action m a
answer_ne e = cc

some_node-inj : {n m : Did} → some_node n ≡ some_node m → n ≡ m
some_node-inj e = cc

-- Suppose `r` is well-formed and unlocked, it has a successor, the nodes are identifiers, and the nearest
-- successor is the next node after `r`. Then what it answers to a
-- lookup of any identifier but its own is the first node at or after that identifier.
pub lookup_correct :
    {S C : Type 0} (Node : Did → Type 0) (r : PeerRing S C) (did n : Did)
    → IsPeerRing r
    → IsUnlocked r
    → IsDid did
    → ((m : Did) → Node m → IsDid m)
    → Successor.is_empty r.successor_seq.value ≡ false
    → NextNode Node r.did (Successor.min_did r.successor_seq.value)
    → did ≢ r.did
    → find_successor r did ≡ ok (some_node n)
    → IsSuccessor Node did n
lookup_correct Node r did n w u d nodes full next ne e = elim (find_successor_returns r did w u) [
  | inr (x, e', _, _, _) ↦ absurd (answer_ne (ok-inj (sym e ∙ e')))
  | inl (x, e', a) ↦
      let q : n ≡ Successor.min_did r.successor_seq.value =
        some_node-inj (ok-inj (sym e ∙ e')) ∙ a.is_min in
      let near : sub did r.did ≤ sub n r.did = elim a.lonely [
        | inl empty ↦ absurd (false≢true (sym full ∙ empty))
        | inr h ↦ subst (λ y. sub did r.did ≤ sub y r.did) (some_node-inj (ok-inj (sym e' ∙ e))) h
      ] in
      record {
        is_node = subst Node (sym q) next.0;
        first = λ m h.
            arc_split r.did n m did (own_did r w)
              (subst IsDid (sym q) (min_did-IsDid r.successor_seq.value w.successor_ok)) (nodes m h)
              d ne (λ p. min_did-other _ w.successor_ok full (sym q ∙ p ∙ sym w.successor_own)) near
              (λ other. subst (λ y. sub y r.did ≤ sub m r.did) (sym q) (next.1 m h other));
      }
]
