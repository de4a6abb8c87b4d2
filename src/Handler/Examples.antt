-- ===== src/Handler/Examples.antt =====
-- The theorems on handlers at node 10, which knows its successor 20.
use rings_node.Base.{ℕ, ◌≡◌, ◌≢◌, ◌⊎◌, ◌<◌, inr, refl, false, none, some, [], ◌∷◌, arith}
use rings_node.Did.{Did, IsDid, sub}
use rings_node.Finger
use rings_node.Successor
use rings_node.Relay.{
  validate, has_repeat, has_infinite_loop, positions, loops_at, matches, send_hop,
}
use rings_node.Chord.{PeerRing, new_with_storage, new_mutex}
use rings_node.Chord.Ring.{IsPeerRing, IsUnlocked, new_with_storage-IsPeerRing}
use rings_node.Network.Correct.{IsSuccessor, NextNode}
use rings_node.Message.{Message, find_successor_send, find_successor_report, report, connect}
use rings_node.Payload.{MessagePayload}
use rings_node.Swarm.{Swarm}
use rings_node.Swarm.Send.{send_report_message, forward_payload}
use rings_node.Handler.Connection.{handle_leave_dht}
use rings_node.Handler.Lookup.{handle_find_successor_send}
use rings_node.Handler.Hop.{IsArrived, lookup_step}
use rings_node.Handler.Leave.{IsGone, handle_leave_dht_lem}
use rings_node.Node.Samples.{env, Items, World, alone, joining}

abbrev ring : PeerRing Items Items
ring = record (new_with_storage {S = Items} {C = Items} 10 3 [] []) {
  successor_seq = new_mutex (record { did = 10; max_num = 3; successors = 20 ∷ [] });
}

ring-IsPeerRing : IsPeerRing ring
unfolding new_with_storage sub Finger.new
ring-IsPeerRing = record {
  finger_ok =
      (new_with_storage-IsPeerRing {S = Items} {C = Items} 10 3 [] [] (omega arith)
        (omega arith)).finger_ok;
  finger_own = refl;
  finger_size = refl;
  successor_ok = record {
    own = omega arith;
    bounded = omega arith;
    narrow = omega arith;
    dids = omega arith;
    others = omega arith;
    distinct = omega arith;
    sorted = omega arith;
  };
  successor_own = refl;
  predecessor_ok = λ p e. cc;
}

ring-IsUnlocked : IsUnlocked ring
unfolding new_with_storage
ring-IsUnlocked = record { finger_free = refl; successor_free = refl; predecessor_free = refl }

abbrev swarm : Swarm ℕ ℕ Items Items World
swarm = record alone { dht = ring; transports = (20, 7) ∷ (30, 8) ∷ [] }

-- Node 20 asks for the successor of 15.
abbrev asking : MessagePayload ℕ Message
asking = record joining { content = find_successor_send 15 false (report connect) }

arrived : IsArrived asking.relay 10
unfolding validate has_repeat has_infinite_loop positions loops_at matches
arrived = record { is_sent = refl; valid = refl; here = refl }

-- The nodes are 10 and 20.
abbrev Node : Did → Type 0
Node m = (m ≡ 10) ⊎ (m ≡ 20)

Node-IsDid : (m : Did) → Node m → IsDid m
Node-IsDid m h = omega arith

next : NextNode Node 10 20
unfolding sub
next = (inr refl, λ m h ne. omega arith)

lookup_step_example :
    ((n : Did) × IsSuccessor Node 15 n
      × (handle_find_successor_send env asking 15 false (report connect) swarm
          ≡ send_report_message env
              (find_successor_report n connect)
              1
              (send_hop asking.relay ring.did none)
              swarm))
    ⊎ ((n : Did) × (n ≢ ring.did → IsDid n × (sub 15 n < sub 15 ring.did))
        × (handle_find_successor_send env asking 15 false (report connect) swarm
            ≡ forward_payload env asking
                (record (send_hop asking.relay ring.did (some n)) { destination = n })
                swarm))
unfolding new_with_storage Successor.is_empty Successor.min_did
lookup_step_example =
    lookup_step env asking swarm Node 15 connect ring-IsPeerRing ring-IsUnlocked (omega arith)
      Node-IsDid refl next (omega arith) arrived

handle_leave_dht_lem_example : IsGone 20 swarm ((handle_leave_dht env asking 20 swarm).1)
handle_leave_dht_lem_example = handle_leave_dht_lem env asking 20 swarm ring-IsUnlocked
