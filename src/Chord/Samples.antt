-- ===== src/Chord/Samples.antt =====
-- A new node, and one that knows a successor.
use rings_node.Base.{◌≡◌, refl, none, some, [], ◌∷◌, arith, subst}
use rings_node.Error.{ok}
use rings_node.Did.{sub}
use rings_node.Finger
use rings_node.Chord.{new_mutex}
use rings_node.Base.{replicate, sym, ◌∙◌}
use rings_node.Error.{ok-inj}
use rings_node.Finger.Join.{join_lem}
use rings_node.Finger.Invariant.{IsFingerTable}
use rings_node.Did.{bias_of, new_bias, bias_lt, cmp, from_big_uint}
use rings_node.Chord.{PeerRing, new_with_storage}
use rings_node.Chord.Ring.{IsPeerRing, IsUnlocked, new_with_storage-IsPeerRing}

abbrev pub Ring : Type 0
Ring = PeerRing (Unit {0}) (Unit {0})

-- Node 10, alone.
unfoldable pub alone : Ring
unfolding new_with_storage
alone = new_with_storage 10 3 tt tt

pub alone-IsPeerRing : IsPeerRing alone
unfolding alone new_with_storage
alone-IsPeerRing = new_with_storage-IsPeerRing 10 3 tt tt (omega arith) (omega arith)

pub alone-IsUnlocked : IsUnlocked alone
unfolding alone new_with_storage
alone-IsUnlocked = record { finger_free = refl; successor_free = refl; predecessor_free = refl }

-- Node 10 that knows 20 for its successor.
unfoldable pub pair : Ring
unfolding alone new_with_storage
pair = record alone {
  successor_seq = new_mutex (record { did = 10; max_num = 3; successors = 20 ∷ [] });
}

pub pair-IsPeerRing : IsPeerRing pair
unfolding alone pair new_with_storage sub Finger.new
pair-IsPeerRing = record {
  finger_ok = alone-IsPeerRing.finger_ok;
  finger_own = refl;
  finger_size = refl;
  successor_ok = record {
    own = omega arith;
    bounded = omega arith;
    narrow = omega arith;
    dids = omega arith;
    others = omega arith;
    distinct = omega arith;
    sorted = omega arith;
  };
  successor_own = refl;
  predecessor_ok = λ p e. cc;
}

pub pair-IsUnlocked : IsUnlocked pair
unfolding alone pair new_with_storage
pair-IsUnlocked = record { finger_free = refl; successor_free = refl; predecessor_free = refl }

-- Node 10 that also holds 20 in its fingers.
unfoldable pub hub : Ring
unfolding alone pair new_with_storage
hub = record pair {
  finger = new_mutex (record {
    did = 10;
    size = 160;
    finger = some 20 ∷ some 20 ∷ some 20 ∷ some 20 ∷ replicate 156 none;
    fix_finger_index = 0;
  });
}

hub-join : Finger.join pair.finger.value 20 ≡ ok hub.finger.value
unfolding alone pair hub new_with_storage Finger.new Finger.join Finger.join_loop Finger.join_step
    sub bias_of new_bias bias_lt cmp from_big_uint
hub-join = refl

pub hub-IsPeerRing : IsPeerRing hub
unfolding alone pair hub new_with_storage
hub-IsPeerRing =
    let (t, e, w, _, _, _, _) =
      join_lem pair.finger.value 20 pair-IsPeerRing.finger_ok (omega arith) in
    record {
      finger_ok = subst IsFingerTable (ok-inj (sym e ∙ hub-join)) w;
      finger_own = refl;
      finger_size = refl;
      successor_ok = pair-IsPeerRing.successor_ok;
      successor_own = refl;
      predecessor_ok = λ p q. cc;
    }

pub hub-IsUnlocked : IsUnlocked hub
unfolding alone pair hub new_with_storage
hub-IsUnlocked = record { finger_free = refl; successor_free = refl; predecessor_free = refl }
