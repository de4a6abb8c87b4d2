-- ===== src/Network/Examples.antt =====
-- The theorems on lookups in a network where node 10 knows node 20, and every other node is new.
use rings_node.Base.{
  ℕ, ◌+◌, ◌*◌, ◌^◌, ◌≡◌, ◌≢◌, ◌≤◌, ◌<◌, ◌⊎◌, inl, inr, refl, true, arith, ◌==◌, if◌then◌else◌,
  Bool-cases,
}
use rings_node.Error.{ok}
use rings_node.Did.{Did, IsDid, sub, bias_of, new_bias, bias_le, bias_lt, cmp}
use rings_node.Finger
use rings_node.Finger.Closest.{IsCovered}
use rings_node.Successor
use rings_node.Action.{some_node, remote_action}
use rings_node.Action
use rings_node.Chord.{new_with_storage, find_successor, bias}
use rings_node.Chord.Ring.{new_with_storage-IsPeerRing}
use rings_node.Chord.Samples.{Ring, alone, pair, hub, hub-IsPeerRing, hub-IsUnlocked}
use rings_node.Network.{IsNetwork, Hops, start, hop}
use rings_node.Network.Correct.{IsSuccessor, NextNode, lookup_correct}
use rings_node.Network.Distance.{Hops-bounded, Hops-logarithmic}

-- The nodes are 10 and 20.
abbrev Node : Did → Type 0
Node m = (m ≡ 10) ⊎ (m ≡ 20)

Node-IsDid : (m : Did) → Node m → IsDid m
Node-IsDid m h = omega arith

next : NextNode Node 10 20
unfolding sub
next = (inr refl, λ m h ne. omega arith)

answer : find_successor hub 15 ≡ ok (some_node 20)
unfolding alone pair hub find_successor bias new_with_storage Successor.is_empty Successor.min_did
    sub new_bias bias_le cmp
answer = refl

lookup_correct_example : IsSuccessor Node 15 20
unfolding alone pair hub new_with_storage Successor.is_empty Successor.min_did
lookup_correct_example =
    lookup_correct Node hub 15 20 hub-IsPeerRing hub-IsUnlocked (omega arith) Node-IsDid refl next
      (omega arith) answer

abbrev net : Did → Ring
net a = if a == 10 then hub else new_with_storage a 3 tt tt

hub-did : (a : Did) → (a == 10) ≡ true → hub.did ≡ a
unfolding alone pair hub new_with_storage
hub-did a h = ground arith

net-IsNetwork : IsNetwork net
unfolding new_with_storage
net-IsNetwork = record {
  ring_ok = λ a d. elim (Bool-cases (a == 10)) [
    | inl h ↦ rw h hub-IsPeerRing
    | inr h ↦ rw h (new_with_storage-IsPeerRing a 3 tt tt d (omega arith))
  ];
  unlocked = λ a d. elim (Bool-cases (a == 10)) [
    | inl h ↦ rw h hub-IsUnlocked
    | inr h ↦ rw h (record { finger_free = refl; successor_free = refl; predecessor_free = refl })
  ];
  named = λ a d. elim (Bool-cases (a == 10)) [ inl h ↦ rw h (hub-did a h) | inr h ↦ rw h refl ];
}

asks : find_successor hub 25 ≡ ok (remote_action 20 (Action.find_successor 25))
unfolding alone pair hub find_successor bias new_with_storage Successor.is_empty Successor.min_did
    sub new_bias bias_of bias_lt bias_le cmp Finger.closest Finger.closest_loop
asks = refl

hub-IsCovered : IsCovered hub.finger.value 25
unfolding hub sub
hub-IsCovered = record {
  slot = 3;
  node = 20;
  low = omega arith;
  high = omega arith;
  held = refl;
  before = omega arith;
}

one_hop : Hops net 25 (λ x. IsCovered (net x).finger.value 25) 10 20 1
one_hop = hop 20 start hub-IsCovered asks (omega arith)

Hops-bounded_example : IsDid 20 × (sub 25 20 + 1 ≤ sub 25 10)
Hops-bounded_example = Hops-bounded net net-IsNetwork 25 (omega arith) (omega arith) one_hop

Hops-logarithmic_example : (2 ^ 1 * sub 25 20 ≤ sub 25 10) × (◌≢◌ {A = ℕ} 25 20 → 1 < 160)
Hops-logarithmic_example = Hops-logarithmic net net-IsNetwork 25 (omega arith) (omega arith) one_hop
