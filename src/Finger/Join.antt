-- ===== src/Finger/Join.antt =====
-- `FingerTable::join`: what it leaves in each slot.
use rings_node.Base.{
  ℕ, zero, suc, ◌+◌, ◌%◌, ◌≤◌, ◌<◌, ◌^◌, ◌≡◌, ◌≢◌, refl, ap, sym, ◌⊎◌, inl, inr, Option, none, some,
  List, arith, ltb, leb, ◌==◌, ==_iff, if◌then◌else◌, length, get_elem?, set, length-set,
  get_elem?-set_self, get_elem?-set_ne, set-get_elem?_self, get_elem?-lt, lt-of-get_elem?,
  Bool-cases, ◌&&◌, ◌∙◌,
}
use rings_node.Did.{Did, IsDid, sub, bias_of}
use rings_node.Did.Order.{bias_lt-new_bias, did-new_bias}
use rings_node.Error.{ok}
use rings_node.Finger.{FingerTable, slot_or_none, join_step, join_loop, join}
use rings_node.Finger.Invariant.{IsFingerTable, start-eq-pow}

-- What `join` makes of slot `k` of the table of `own`: `did` enters it if it lies far enough and
-- nearer than what is there.
abbrev pub join_slot : Did → Did → ℕ → Option Did → Option Did
join_slot own did k none = if leb (2 ^ k) (sub did own) then some did else none
join_slot own did k (some v) =
    if leb (2 ^ k) (sub did own)
    then (if ltb (sub did own) (sub v own) then some did else some v)
    else some v

unfoldable pub join_list : ℕ → ℕ → Did → Did → List (Option Did) → List (Option Did)
join_list zero k own did xs = xs
join_list (suc n) k own did xs =
    join_list n (k + 1) own did (set xs k (join_slot own did k (slot_or_none (get_elem? xs k))))

module _ (did : Did) where
  join_step-slot :
      (t : FingerTable) (k : ℕ) (slot : Option Did)
      → k < 160
      → get_elem? t.finger k ≡ some slot
      → join_step t did k ≡ ok (record t { finger = set t.finger k (join_slot t.did did k slot) })
  unfolding join_step bias_of
  join_step-slot t k none h e =
      ground (arith, start-eq-pow k h, did-new_bias t.did did, set-get_elem?_self t.finger k none e)
  join_step-slot t k (some v) h e = ground (
    arith,
    start-eq-pow k h,
    did-new_bias t.did did,
    bias_lt-new_bias t.did did v,
    set-get_elem?_self t.finger k (some v) e,
  )

  join_step-eq :
      (t : FingerTable) (k : ℕ)
      → k < 160
      → k < length t.finger
      → join_step t did k
        ≡ ok (record t {
          finger = set t.finger k (join_slot t.did did k (slot_or_none (get_elem? t.finger k)));
        })
  join_step-eq t k h l =
      let (slot, e) = get_elem?-lt t.finger k l in rw e (join_step-slot t k slot h e)

  join_loop-eq :
      (n k : ℕ) (t : FingerTable)
      → k + n ≤ 160
      → k + n ≤ length t.finger
      → join_loop n k t did ≡ ok (record t { finger = join_list n k t.did did t.finger })
  unfolding join_loop join_list
  join_loop-eq zero k t h l = refl
  join_loop-eq (suc n) k t h l =
      rw (join_step-eq t k (omega arith) (omega arith))
        (join_loop-eq n (k + 1) _ (omega arith) (omega (arith, length-set t.finger k)))

  length-join_list :
      (n k : ℕ) (own : Did) (xs : List (Option Did)) → length (join_list n k own did xs) ≡ length xs
  unfolding join_list
  length-join_list zero k own xs = refl
  length-join_list (suc n) k own xs = length-join_list n (k + 1) own _ ∙ length-set xs k _

  get_elem?-join_list :
      (n k : ℕ) (own : Did) (xs : List (Option Did)) (j : ℕ) (slot : Option Did)
      → get_elem? xs j ≡ some slot
      → get_elem? (join_list n k own did xs) j
        ≡ some (if leb k j && ltb j (k + n) then join_slot own did j slot else slot)
  unfolding join_list
  get_elem?-join_list zero k own xs j slot e = ground (arith, e)
  get_elem?-join_list (suc n) k own xs j slot e = elim (Bool-cases (k == j)) [
    | inl h ↦
        let q : k ≡ j = (==_iff k j).0 h in
        get_elem?-join_list n (k + 1) own (written xs) j (join_slot own did j slot) (hit q)
        ∙ ap some (ground arith)
    | inr h ↦
        get_elem?-join_list n (k + 1) own (written xs) j slot (miss (ground arith))
        ∙ ap some (ground arith)
  ]
    where
      written : List (Option Did) → List (Option Did)
      written ys = set ys k (join_slot own did k (slot_or_none (get_elem? ys k)))

      hit : k ≡ j → get_elem? (written xs) j ≡ some (join_slot own did j slot)
      hit q = cc (
        q,
        get_elem?-set_self xs k (join_slot own did k (slot_or_none (get_elem? xs k)))
            (omega (arith, lt-of-get_elem? xs j e)),
      )

      miss : k ≢ j → get_elem? (written xs) j ≡ some slot
      miss q = get_elem?-set_ne xs _ q ∙ e

  -- Only the number of slots matters here.
  pub join-eq :
      (t : FingerTable)
      → length t.finger ≡ t.size
      → t.size ≤ 160
      → join t did ≡ ok (record t { finger = join_list t.size 0 t.did did t.finger })
  unfolding join
  join-eq t sized bounded =
      let e : t.size % 2 ^ 32 ≡ t.size = omega arith in
      rw e (join_loop-eq t.size 0 t (omega arith) (omega arith))

  -- What a slot holds after a join was there before, or is `did` and lies far enough.
  join_slot-cases :
      (own v : Did) (k : ℕ) (slot : Option Did)
      → join_slot own did k slot ≡ some v
      → (slot ≡ some v) ⊎ ((v ≡ did) × (2 ^ k ≤ sub did own))
  join_slot-cases own v k none e = ground arith
  join_slot-cases own v k (some x) e = ground arith

  pub join_slots :
      (t : FingerTable)
      → length t.finger ≡ t.size
      → (k : ℕ) (slot : Option Did) → get_elem? t.finger k ≡ some slot
      → get_elem? (join_list t.size 0 t.did did t.finger) k ≡ some (join_slot t.did did k slot)
  join_slots t sized k slot e =
      get_elem?-join_list t.size 0 t.did t.finger k slot e
      ∙ ap some (ground (arith, lt-of-get_elem? t.finger k e, sized))

  pub join_list-IsFingerTable :
      (t : FingerTable)
      → IsFingerTable t
      → IsDid did
      → IsFingerTable (record t { finger = join_list t.size 0 t.did did t.finger })
  join_list-IsFingerTable t w d = record {
    own = w.own;
    sized = length-join_list t.size 0 t.did t.finger ∙ w.sized;
    bounded = w.bounded;
    reach = λ k v e.
        let (slot, old) = get_elem?-lt t.finger k (
          omega (
            arith,
            lt-of-get_elem? (join_list t.size 0 t.did did t.finger) k e,
            length-join_list t.size 0 t.did t.finger,
          )) in
        let found : some (join_slot t.did did k slot) ≡ some (some v) =
          sym (join_slots t w.sized k slot old) ∙ e in
        elim (join_slot-cases t.did v k slot (cc)) [
          | inl h ↦ w.reach k v (old ∙ ap some h)
          | inr (h, far) ↦ rw h (d, far)
        ];
  }

-- `join` on a well-formed table does not panic. The result is well-formed, belongs to the same owner
-- and keeps the size and the fixing index; a slot `k` at most as far as `did` (`2 ^ k` steps) is taken by `did`
-- when it was empty or held a node strictly farther than `did`; every other slot is as it was.
pub join_lem :
    (t : FingerTable) (did : Did)
    → IsFingerTable t
    → IsDid did
    → (t' : FingerTable) × (join t did ≡ ok t')
      × IsFingerTable t'
      × (t'.did ≡ t.did)
      × (t'.size ≡ t.size)
      × (t'.fix_finger_index ≡ t.fix_finger_index)
      × ((k : ℕ) (slot : Option Did)
          → get_elem? t.finger k ≡ some slot
          → get_elem? t'.finger k ≡ some (join_slot t.did did k slot))
join_lem t did w d = (
  record t { finger = join_list t.size 0 t.did did t.finger },
  join-eq did t w.sized w.bounded,
  join_list-IsFingerTable did t w d,
  refl,
  refl,
  refl,
  join_slots did t w.sized,
)
