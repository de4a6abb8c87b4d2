-- ===== src/Chord.antt =====
-- PeerRing of rings-core/src/dht/chord.rs and its `Chord` methods. A mutex holds its value and whether
-- it is poisoned: then `lock` fails. The storage and the cache are of any type here: the methods
-- that use them are in Chord/Storage. A method that changes the ring returns the new ring.
pub mod Ring
pub mod Remove
pub mod Lookup
pub mod Join
pub mod Notify
pub mod FixFingers
pub mod Sound
pub mod Storage
pub mod Samples
mod Examples
use rings_node.Base.{
  ℕ, ◌+◌, ◌%◌, ◌^◌, Bool, true, false, ◌||◌, not, Option, none, some, leb, ◌==◌, if◌then◌else◌,
}
use rings_node.Error.{
  Error, Result, ok, err, panic, ◌>>=◌, dht_sync_lock_error, peer_ring_invalid_action,
  peer_ring_find_successor,
}
use rings_node.Did.{Did, BiasId, new_bias, bias_lt, bias_le, from_big_uint}
use rings_node.Finger
use rings_node.Finger.{FingerTable}
use rings_node.Successor
use rings_node.Successor.{SuccessorSeq}
use rings_node.Action.{PeerRingAction, nothing, some_node, remote_action, RemoteAction}
use rings_node.Action

pub record Mutex (A : Type 0) : Type 0 where
  pub value : A
  pub poisoned : Bool

pub record PeerRing (S C : Type 0) : Type 0 where
  pub did : Did
  pub finger : Mutex FingerTable
  pub successor_seq : Mutex SuccessorSeq
  pub predecessor : Mutex (Option Did)
  pub storage : S
  pub cache : C

-- `Mutex::new`
abbrev pub new_mutex : {A : Type 0} → A → Mutex A
new_mutex a = record { value = a; poisoned = false }

-- `lock_finger`, `lock_successor` and `lock_predecessor`
abbrev pub lock : {A : Type 0} → Mutex A → Result A
lock m = if m.poisoned then err dht_sync_lock_error else ok m.value

-- What is written through the guard.
abbrev pub write : {A : Type 0} → Mutex A → A → Mutex A
write m a = record m { value = a }

abbrev pub without_predecessor : Option Did → Did → Option Did
without_predecessor none did = none
without_predecessor (some pid) did = if pid == did then none else some pid

-- `if successor.is_empty() { if let Some(x) = finger.first() { successor.update(x) } }`
unfoldable pub refill : FingerTable → SuccessorSeq → SuccessorSeq
refill finger successor =
    if Successor.is_empty successor
    then elim (Finger.first finger) [ none ↦ successor | some x ↦ Successor.update successor x ]
    else successor

-- `fix_finger_index` is a `u8`.
abbrev pub next_index : ℕ → ℕ
next_index i = let j = (i + 1) % 2 ^ 8 in if leb 159 j then 0 else j

module _ {S C : Type 0} where
  -- `new_with_storage`; `new_with_config` opens the storage first. 160 fingers.
  unfoldable pub new_with_storage : Did → ℕ → S → C → PeerRing S C
  new_with_storage did succ_max storage cache = record {
    did = did;
    finger = new_mutex (Finger.new did 160);
    successor_seq = new_mutex (Successor.new did succ_max);
    predecessor = new_mutex none;
    storage = storage;
    cache = cache;
  }

  unfoldable pub bias : PeerRing S C → Did → BiasId
  bias self did = new_bias self.did did

  unfoldable pub remove : PeerRing S C → Did → Result (PeerRing S C)
  remove self did = do
    finger ← lock self.finger
    successor ← lock self.successor_seq
    predecessor ← lock self.predecessor
    let finger' = Finger.remove finger did
    ok (record self {
      predecessor = write self.predecessor (without_predecessor predecessor did);
      finger = write self.finger finger';
      successor_seq = write self.successor_seq (refill finger' (Successor.remove successor did));
    })

  -- The successor sequence after `join`: `did` enters if it is nearer than the farthest or if there is
  -- room.
  unfoldable pub join_successor : PeerRing S C → SuccessorSeq → Did → SuccessorSeq
  join_successor self successor did =
      if bias_lt (bias self did) (bias self (Successor.max_did successor))
        || not (Successor.is_full successor)
      then Successor.update successor did
      else successor

  unfoldable pub join : PeerRing S C → Did → Result (PeerRing S C × PeerRingAction)
  join self did = if did == self.did then ok (self, nothing) else do
    finger ← lock self.finger
    successor ← lock self.successor_seq
    finger' ← Finger.join finger did
    ok (
      record self {
        finger = write self.finger finger';
        successor_seq = write self.successor_seq (join_successor self successor did);
      },
      remote_action did (Action.find_successor_for_connect self.did),
    )

  unfoldable pub find_successor : PeerRing S C → Did → Result PeerRingAction
  find_successor self did = do
    successor ← lock self.successor_seq
    finger ← lock self.finger
    if Successor.is_empty successor
          || bias_le (bias self did) (bias self (Successor.min_did successor))
        then ok (some_node (Successor.min_did successor))
        else do
          closest ← Finger.closest finger did
          ok (remote_action closest (Action.find_successor did))

  -- Whether `did` takes the predecessor's place.
  unfoldable pub is_closer : PeerRing S C → Option Did → Did → Bool
  is_closer self none did = true
  is_closer self (some pre) did = bias_lt (bias self pre) (bias self did)

  unfoldable pub notify : PeerRing S C → Did → Result (PeerRing S C × Option Did)
  notify self did = do
    predecessor ← lock self.predecessor
    if is_closer self predecessor did
        then ok (record self { predecessor = write self.predecessor (some did) }, some did)
        else ok (self, none)

  abbrev pub set_index : PeerRing S C → ℕ → PeerRing S C
  set_index self i = record self {
    finger = write self.finger (record (self.finger.value) { fix_finger_index = i });
  }

  -- What `fix_fingers` does with the outcome of its lookup. The index moves on whatever that is; the
  -- lock was free before the lookup, and is again.
  unfoldable pub fixed :
      PeerRing S C → ℕ → Result PeerRingAction → PeerRing S C × Result PeerRingAction
  fixed self i (ok (some_node v)) =
      let moved = set_index self i in
      (
        record moved { finger = write moved.finger (Finger.set_fix moved.finger.value v) },
        ok nothing,
      )
  fixed self i (ok (remote_action a (Action.find_successor b))) =
      (set_index self i, ok (remote_action a (Action.find_successor_for_fix b)))
  fixed self i (ok _) = (set_index self i, err peer_ring_invalid_action)
  fixed self i (err e) = (set_index self i, err (peer_ring_find_successor e))
  fixed self i panic = (self, panic)

  -- The ring comes back beside an error too.
  unfoldable pub fix_fingers : PeerRing S C → PeerRing S C × Result PeerRingAction
  unfolding fixed
  fix_fingers self = elim (lock self.finger) [
    | ok finger ↦
        let i = next_index finger.fix_finger_index in
        fixed self i (find_successor self (from_big_uint ((self.did + 2 ^ i) % 2 ^ 160)))
    | err e ↦ (self, err e)
    | panic ↦ (self, panic)
  ]

  unfoldable pub check_predecessor : PeerRing S C → Result PeerRingAction
  check_predecessor self = do
    predecessor ← lock self.predecessor
    ok (elim predecessor [ none ↦ nothing | some p ↦ remote_action p Action.check_predecessor ])
