-- ===== src/Chord/FixFingers.antt =====
-- `PeerRing::fix_fingers`: which finger it fixes, and what it writes.
use rings_node.Base.{
  ℕ, ◌≤◌, ◌<◌, ◌+◌, ◌%◌, ◌^◌, ◌≡◌, ◌≢◌, refl, ap, sym, ◌∙◌, inl, inr, true, false, false≢true, some,
  arith, get_elem?, set, length, length-set, get_elem?-set_self, lt-of-get_elem?, get_elem?-set_ne,
  Bool-cases, ◌==◌, subst,
}
use rings_node.Error.{Result, ok}
use rings_node.Did.{Did, IsDid, sub, from_big_uint}
use rings_node.Did.Ring.{sub_self}
use rings_node.Finger
use rings_node.Finger.Invariant.{pow-lt-ring_size}
use rings_node.Finger.Join.{join_slot, join_list, join-eq, join_slots}
use rings_node.Successor
use rings_node.Successor.Nearest.{min_did-IsDid, min_did-empty}
use rings_node.Action.{PeerRingAction, nothing, some_node, remote_action}
use rings_node.Action
use rings_node.Chord.{PeerRing, next_index, set_index, fixed, fix_fingers, find_successor}
use rings_node.Chord.Ring.{IsPeerRing, IsUnlocked, own_did}
use rings_node.Chord.Lookup.{find_successor_returns}

-- The identifier whose successor finger `i` is for.
abbrev pub target : Did → ℕ → Did
target own i = from_big_uint ((own + 2 ^ i) % 2 ^ 160)

target-sub : (own : Did) (i : ℕ) → IsDid own → i < 160 → sub (target own i) own ≡ 2 ^ i
unfolding sub from_big_uint
target-sub own i d h = omega (arith, pow-lt-ring_size i h)

next_index-lt : (i : ℕ) → next_index i < 159
next_index-lt i = ground arith

-- The slot at the fixing index holds the table's owner, and after a join of whatever node it still does.
abbrev pub HoldsItself : Finger.FingerTable → Type 0
HoldsItself t =
    (get_elem? t.finger t.fix_finger_index ≡ some (some t.did))
    × ((did : Did)
        → (t' : Finger.FingerTable) × (Finger.join t did ≡ ok t')
          × (get_elem? t'.finger t.fix_finger_index ≡ some (some t.did)))

join_slot_self : (own did : Did) (i : ℕ) → IsDid own → join_slot own did i (some own) ≡ some own
join_slot_self own did i h = ground (arith, sub_self own h)

holds_itself :
    (t : Finger.FingerTable)
    → get_elem? t.finger t.fix_finger_index ≡ some (some t.did)
    → length t.finger ≡ t.size
    → t.size ≤ 160
    → IsDid t.did
    → HoldsItself t
holds_itself t e sized bounded own = (
  e,
  λ did. (
    record t { finger = join_list t.size 0 t.did did t.finger },
    join-eq did t sized bounded,
    join_slots did t sized t.fix_finger_index (some t.did) e
        ∙ ap some (join_slot_self t.did did t.fix_finger_index own),
  ),
)

module _ {S C : Type 0} (r : PeerRing S C) where
  -- A finger entry that lies far enough keeps the ring well-formed.
  fixed-IsPeerRing :
      (i : ℕ) (v : Did)
      → IsPeerRing r
      → IsDid v
      → 2 ^ i ≤ sub v r.did
      → IsPeerRing (fixed r i (ok (some_node v))).0
  unfolding fixed Finger.set_fix
  fixed-IsPeerRing i v w d far = record {
    finger_ok = record {
      own = w.finger_ok.own;
      sized = length-set r.finger.value.finger i (some v) ∙ w.finger_ok.sized;
      bounded = w.finger_ok.bounded;
      reach = λ k x e. elim (Bool-cases (i == k)) [
        | inl h ↦
            let p : i ≡ k = ground arith in
            let q : v ≡ x = hit k x p e in
            (
              subst IsDid q d,
              omega (
                arith,
                ap (λ n. 2 ^ n) p,
                ap (λ y. sub y r.finger.value.did) q,
                ap (sub v) w.finger_own,
              ),
            )
        | inr h ↦
            w.finger_ok.reach k x
              (sym (get_elem?-set_ne r.finger.value.finger (some v) (ne i k h)) ∙ e)
      ];
    };
    finger_own = w.finger_own;
    finger_size = w.finger_size;
    successor_ok = w.successor_ok;
    successor_own = w.successor_own;
    predecessor_ok = w.predecessor_ok;
  }
    where
      ne : (a b : ℕ) → (a == b) ≡ false → a ≢ b
      ne a b h = ground arith

      hit :
          (k : ℕ) (x : Did)
          → i ≡ k
          → get_elem? (set r.finger.value.finger i (some v)) k ≡ some (some x)
          → v ≡ x
      hit k x p e =
          let e' : get_elem? (set r.finger.value.finger i (some v)) i ≡ some (some x) =
            ap (get_elem? (set r.finger.value.finger i (some v))) p ∙ e in
          let l : i < length r.finger.value.finger = omega (
            arith,
            lt-of-get_elem? (set r.finger.value.finger i (some v)) i e',
            length-set r.finger.value.finger i (some v),
          ) in
          cc (get_elem?-set_self r.finger.value.finger i (some v) l, e')

  set_index-IsPeerRing : (i : ℕ) → IsPeerRing r → IsPeerRing (set_index r i)
  set_index-IsPeerRing i w = record {
    finger_ok = record {
      own = w.finger_ok.own;
      sized = w.finger_ok.sized;
      bounded = w.finger_ok.bounded;
      reach = w.finger_ok.reach;
    };
    finger_own = w.finger_own;
    finger_size = w.finger_size;
    successor_ok = w.successor_ok;
    successor_own = w.successor_own;
    predecessor_ok = w.predecessor_ok;
  }

  fix_fingers-eq :
      r.finger.poisoned ≡ false
      → let i = next_index r.finger.value.fix_finger_index in
        fix_fingers r ≡ fixed r i (find_successor r (target r.did i))
  unfolding fix_fingers
  fix_fingers-eq u = rw u

  -- On an unlocked well-formed ring with a successor known, `fix_fingers` keeps the ring well-formed,
  -- whatever its lookup gives.
  fix_fingers-IsPeerRing :
      IsPeerRing r
      → IsUnlocked r
      → Successor.is_empty r.successor_seq.value ≡ false
      → IsPeerRing (fix_fingers r).0
  unfolding fixed
  fix_fingers-IsPeerRing w u full =
      let i = next_index r.finger.value.fix_finger_index in
      let at_target =
        target-sub r.did i (own_did r w)
          (omega (arith, next_index-lt r.finger.value.fix_finger_index)) in
      rw (fix_fingers-eq u.finger_free) (elim (find_successor_returns r (target r.did i) w u) [
        | inl (n, e, a) ↦ rw e (
            fixed-IsPeerRing i n w
              (subst IsDid (sym a.is_min) (min_did-IsDid r.successor_seq.value w.successor_ok))
              (elim a.lonely [
                | inl empty ↦ absurd (false≢true (sym full ∙ empty))
                | inr near ↦ omega (arith, near, at_target)
              ]))
        | inr (n, e, _, _, _) ↦ rw e (set_index-IsPeerRing i w)
      ])

  alone_fixed :
      (i : ℕ) (n : Did)
      → IsPeerRing r
      → i < 160
      → n ≡ r.did
      → HoldsItself (fixed r i (ok (some_node n))).0.finger.value
  unfolding fixed Finger.set_fix
  alone_fixed i n w h e =
      let t = (fixed r i (ok (some_node n))).0.finger.value in
      let at_slot : get_elem? t.finger i ≡ some (some t.did) =
        get_elem?-set_self r.finger.value.finger i (some n)
          (omega (arith, w.finger_ok.sized, w.finger_size))
        ∙ ap (λ d. some (some d)) (e ∙ sym w.finger_own) in
      holds_itself t at_slot (length-set r.finger.value.finger i (some n) ∙ w.finger_ok.sized)
        w.finger_ok.bounded w.finger_ok.own

  -- A well-formed unlocked node with no successor answers its own lookup with itself, so `fix_fingers` puts the node into
  -- its own finger table, and no join of any node takes that slot over.
  pub fix_fingers_alone :
      IsPeerRing r
      → IsUnlocked r
      → Successor.is_empty r.successor_seq.value ≡ true
      → HoldsItself (fix_fingers r).0.finger.value
  fix_fingers_alone w u lonely =
      let i = next_index r.finger.value.fix_finger_index in
      rw (fix_fingers-eq u.finger_free) (elim (find_successor_returns r (target r.did i) w u) [
        | inl (n, e, a) ↦ rw e (
            alone_fixed i n w (omega (arith, next_index-lt r.finger.value.fix_finger_index))
              (a.is_min ∙ min_did-empty r.successor_seq.value lonely ∙ w.successor_own))
        | inr (n, e, _, _, full) ↦ absurd (false≢true (sym full ∙ lonely))
      ])

  fixed_last :
      (i : ℕ) (a : Result PeerRingAction)
      → i < 159
      → get_elem? (fixed r i a).0.finger.value.finger 159 ≡ get_elem? r.finger.value.finger 159
  unfolding fixed Finger.set_fix
  fixed_last i (ok (some_node v)) h =
      get_elem?-set_ne r.finger.value.finger (some v) (λ e. absurd (omega arith))
  fixed_last i (ok (remote_action n (Action.find_successor d))) h = refl
  fixed_last i _ h = refl

  -- Whatever the state, `fix_fingers` leaves the last of the 160 fingers as it is: the index goes back
  -- to 0 where it should become 159.
  pub fix_fingers_last :
      get_elem? (fix_fingers r).0.finger.value.finger 159 ≡ get_elem? r.finger.value.finger 159
  unfolding fix_fingers
  fix_fingers_last = elim (Bool-cases r.finger.poisoned) [
    | inl p ↦ rw (p, fix_fingers) refl
    | inr p ↦ rw (fix_fingers-eq p) (fixed_last _ _ (next_index-lt r.finger.value.fix_finger_index))
  ]
