-- ===== src/Chord/Join.antt =====
-- `PeerRing::join`.
use rings_node.Base.{ℕ, ◌≡◌, ◌≢◌, refl, ap, ◌∙◌, Option, some, arith, get_elem?, ==_iff}
use rings_node.Error.{ok}
use rings_node.Did.{Did, IsDid}
use rings_node.Finger.Join.{join_slot, join_lem}
use rings_node.Successor.Invariant.{IsSuccessorSeq, update-IsSuccessorSeq, update-did}
use rings_node.Action.{PeerRingAction, nothing, remote_action}
use rings_node.Action
use rings_node.Did.Order.{bias_lt-new_bias}
use rings_node.Successor
use rings_node.Did.{sub}
use rings_node.Base.{ltb, ◌||◌, not, if◌then◌else◌}
use rings_node.Chord.{bias, PeerRing, write, join, join_successor}
use rings_node.Chord.Ring.{IsPeerRing, IsUnlocked}

module _ {S C : Type 0} (r : PeerRing S C) (did : Did) (w : IsPeerRing r) (d : IsDid did) where
  join_successor-IsSuccessorSeq :
      IsSuccessorSeq (join_successor r r.successor_seq.value did)
      × ((join_successor r r.successor_seq.value did).did ≡ r.did)
  unfolding join_successor
  join_successor-IsSuccessorSeq = ground (
    arith,
    update-IsSuccessorSeq r.successor_seq.value did w.successor_ok d,
    update-did r.successor_seq.value did,
  )

  -- By distances.
  join_successor-eq :
      let s = r.successor_seq.value in
      join_successor r s did ≡ (
        if ltb (sub did r.did) (sub (Successor.max_did s) r.did) || not (Successor.is_full s)
        then Successor.update s did
        else s)
  unfolding join_successor bias
  join_successor-eq = rw (bias_lt-new_bias r.did did (Successor.max_did r.successor_seq.value)) refl

  -- A well-formed unlocked node joins another: the ring stays well-formed, slot `k` of the finger table becomes
  -- `join_slot` of what it was, `did` enters the
  -- successors if it is nearer than the farthest of them or there is room, the predecessor is
  -- as it was, and the action asks `did` for the successor of this node.
  pub join_other :
      IsUnlocked r
      → did ≢ r.did
      → (r' : PeerRing S C) × (join r did
          ≡ ok (r', remote_action did (Action.find_successor_for_connect r.did)))
        × IsPeerRing r'
        × ((k : ℕ) (slot : Option Did)
            → get_elem? r.finger.value.finger k ≡ some slot
            → get_elem? r'.finger.value.finger k ≡ some (join_slot r.did did k slot))
        × (r'.successor_seq.value ≡ (
            if ltb (sub did r.did) (sub (Successor.max_did r.successor_seq.value) r.did)
              || not (Successor.is_full r.successor_seq.value)
            then Successor.update r.successor_seq.value did
            else r.successor_seq.value))
        × (r'.predecessor ≡ r.predecessor)
  unfolding join
  join_other u ne =
      let (t, e, ft, own, size, _, slots) = join_lem r.finger.value did w.finger_ok d in
      let (st, own') = join_successor-IsSuccessorSeq in
      (
        record r {
          finger = write r.finger t;
          successor_seq = write r.successor_seq (join_successor r r.successor_seq.value did);
        },
        ground (arith, e),
        record {
          finger_ok = ft;
          finger_own = own ∙ w.finger_own;
          finger_size = size ∙ w.finger_size;
          successor_ok = st;
          successor_own = own';
          predecessor_ok = w.predecessor_ok;
        },
        λ k slot g. slots k slot g ∙ ap (λ o. some (join_slot o did k slot)) w.finger_own,
        join_successor-eq,
        refl,
      )

-- A node never joins itself.
pub join_self : {S C : Type 0} (r : PeerRing S C) → join r r.did ≡ ok (r, nothing)
unfolding join
join_self r = rw ((==_iff r.did r.did).1 refl)
