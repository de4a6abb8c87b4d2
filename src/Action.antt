-- ===== src/Action.antt =====
-- PeerRingAction and RemoteAction of rings-core/src/dht/chord.rs: what a node has to do next.
use rings_node.Base.{Bool, true, false, List}
use rings_node.Did.{Did}
use rings_node.VNode.{VirtualNode, VNodeOperation}

pub data RemoteAction : Type 0 where
  find_successor find_vnode : Did → RemoteAction
  find_vnode_for_operate : VNodeOperation → RemoteAction
  notify : Did → RemoteAction
  sync_vnode_with_successor : List VirtualNode → RemoteAction
  find_successor_for_connect find_successor_for_fix : Did → RemoteAction
  check_predecessor : RemoteAction

mutual
  pub data PeerRingAction : Type 0 where
    nothing : PeerRingAction
    some_vnode : VirtualNode → PeerRingAction
    some_node : Did → PeerRingAction
    remote_action : Did → RemoteAction → PeerRingAction
    multi_actions : Actions → PeerRingAction

  -- `Vec<PeerRingAction>`
  pub data Actions : Type 0 where
    nil : Actions
    cons : PeerRingAction → Actions → Actions

unfoldable pub is_none : PeerRingAction → Bool
is_none nothing = true
is_none _ = false

unfoldable pub is_some : PeerRingAction → Bool
is_some (some_node _) = true
is_some _ = false

unfoldable pub is_remote : PeerRingAction → Bool
is_remote (remote_action _ _) = true
is_remote _ = false

unfoldable pub is_multi : PeerRingAction → Bool
is_multi (multi_actions _) = true
is_multi _ = false
