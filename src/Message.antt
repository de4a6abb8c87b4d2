-- ===== src/Message.antt =====
-- rings-core/src/message/types.rs: what nodes say to each other. A message struct is the arguments of
-- its constructor of `Message`. The encryption of ecies and the coding of bincode are the record
-- `Cipher`, a parameter, over any types of public and secret keys.
pub mod Cipher
mod Examples
use rings_node.Base.{ℕ, Bool, true, false, Option, none, some, List, [], ◌∷◌, String}
use rings_node.Did.{Did}
use rings_node.VNode.{VirtualNode, VNodeOperation}

-- `CustomCallback` carries a `u8`; the constructor `None` of `FindSuccessorReportHandler` is `no_handler`.
pub data FindSuccessorReportHandler : Type 0 where
  no_handler connect fix_finger_table sync_storage : FindSuccessorReportHandler
  custom_callback : ℕ → FindSuccessorReportHandler

pub data FindSuccessorThen : Type 0 where
  report : FindSuccessorReportHandler → FindSuccessorThen

-- `CustomMessage` is its bytes.
pub data MaybeEncrypted (T : Type 0) : Type 0 where
  encrypted : List ℕ → MaybeEncrypted T
  plain : T → MaybeEncrypted T

mutual
  pub data Message : Type 0 where
    multi_call : Messages → Message
    join_dht leave_dht : Did → Message
    connect_node_send connect_node_report : (transport_uuid handshake_info : String) → Message
    already_connected : Message
    find_successor_send : (did : Did) (strict : Bool) → FindSuccessorThen → Message
    find_successor_report : (did : Did) → FindSuccessorReportHandler → Message
    notify_predecessor_send notify_predecessor_report : (did : Did) → Message
    search_vnode : (vid : Did) → Message
    found_vnode : List VirtualNode → Message
    operate_vnode : VNodeOperation → Message
    sync_vnode_with_successor : List VirtualNode → Message
    custom_message : MaybeEncrypted (List ℕ) → Message

  -- `Vec<Message>`
  pub data Messages : Type 0 where
    nil : Messages
    cons : Message → Messages → Messages
