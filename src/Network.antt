-- ===== src/Network.antt =====
-- Lookups over a network of nodes: what the `FindSuccessorSend` messages of
-- rings-core/src/message/handlers/connection.rs do hop by hop with `PeerRing::find_successor`.
pub mod Correct
pub mod Distance
mod Examples
use rings_node.Base.{ℕ, suc, ◌≡◌, ◌≢◌}
use rings_node.Error.{ok}
use rings_node.Did.{Did, IsDid}
use rings_node.Action.{remote_action}
use rings_node.Action
use rings_node.Chord.{PeerRing, find_successor}
use rings_node.Chord.Ring.{IsPeerRing, IsUnlocked}

-- The state of every node, by its identifier.
pub record IsNetwork {S C : Type 0} (net : Did → PeerRing S C) : Type 0 where
  pub ring_ok : (a : Did) → IsDid a → IsPeerRing (net a)
  pub unlocked : (a : Did) → IsDid a → IsUnlocked (net a)
  pub named : (a : Did) → IsDid a → (net a).did ≡ a

-- `b` is asked after `n` hops for `did`, which began at `a`: each node passed the lookup on to another
-- node, and is a node of `P`.
pub data Hops {S C : Type 0} (net : Did → PeerRing S C) (did : Did) (P : Did → Type 0) (a : Did)
    : Did → ℕ → Type 0 where
  start : Hops net did P a a 0
  hop :
      {b : Did} {n : ℕ} (c : Did)
      → Hops net did P a b n
      → P b
      → find_successor (net b) did ≡ ok (remote_action c (Action.find_successor did))
      → c ≢ b
      → Hops net did P a c (suc n)
