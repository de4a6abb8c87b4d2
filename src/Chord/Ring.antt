-- ===== src/Chord/Ring.antt =====
-- The well-formedness of a node's view of the ring.
use rings_node.Base.{ℕ, ◌<◌, ◌^◌, ◌≡◌, refl, false, some, arith, subst}
use rings_node.Did.{Did, IsDid}
use rings_node.Finger
use rings_node.Finger.{FingerTable, first_some}
use rings_node.Finger.Invariant.{IsFingerTable, new-IsFingerTable}
use rings_node.Successor
use rings_node.Successor.{SuccessorSeq}
use rings_node.Successor.Invariant.{IsSuccessorSeq, new-IsSuccessorSeq}
use rings_node.Chord.{PeerRing, new_with_storage}

module _ {S C : Type 0} where
  -- The finger table and the successor sequence are the node's own and well-formed.
  pub record IsPeerRing (r : PeerRing S C) : Type 0 where
    pub finger_ok : IsFingerTable r.finger.value
    pub finger_own : r.finger.value.did ≡ r.did
    pub finger_size : r.finger.value.size ≡ 160
    pub successor_ok : IsSuccessorSeq r.successor_seq.value
    pub successor_own : r.successor_seq.value.did ≡ r.did
    pub predecessor_ok : (p : Did) → r.predecessor.value ≡ some p → IsDid p

  -- No mutex is poisoned.
  pub record IsUnlocked (r : PeerRing S C) : Type 0 where
    pub finger_free : r.finger.poisoned ≡ false
    pub successor_free : r.successor_seq.poisoned ≡ false
    pub predecessor_free : r.predecessor.poisoned ≡ false

  pub own_did : (r : PeerRing S C) → IsPeerRing r → IsDid r.did
  own_did r w = subst IsDid w.finger_own (w.finger_ok.own)

  pub new_with_storage-IsPeerRing :
      (did : Did) (succ_max : ℕ) (s : S) (c : C)
      → IsDid did
      → succ_max < 2 ^ 8
      → IsPeerRing (new_with_storage did succ_max s c)
  unfolding new_with_storage Finger.new Successor.new
  new_with_storage-IsPeerRing did m s c d h = record {
    finger_ok = new-IsFingerTable did 160 d (omega arith);
    finger_own = refl;
    finger_size = refl;
    successor_ok = new-IsSuccessorSeq did m d h;
    successor_own = refl;
    predecessor_ok = λ p e. cc;
  }
