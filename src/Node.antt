-- ===== src/Node.antt =====
-- A node in operation: what it is asked for and what reaches it, one thing after the other. The inputs are
-- the calls of `listen_once` (rings-core/src/message/handlers/mod.rs), `stabilize`
-- (rings-core/src/dht/stabilization.rs), the methods of `Swarm` and those of its storage and subring traits, and
-- the handshakes of `Processor` (src/processor.rs), which also closes connections, and any call of the JSON-RPC server
-- (src/jsonrpc/server.rs), signed or not.
pub mod Invariant
pub mod Samples
mod Examples
use rings_node.Base.{Bool, Option, none, some, List, [], ◌∷◌, String}
use rings_node.Error.{Result}
use rings_node.Did.{Did}
use rings_node.VNode.{VirtualNode, Encoded}
use rings_node.Message.{Message}
use rings_node.Swarm.{Swarm, Env, Event}
use rings_node.Swarm.Send.{send_message}
use rings_node.Swarm.Connect.{connect, disconnect}
use rings_node.Processor as Processor
use rings_node.Processor.{
  Client, create_offer, answer_offer, connect_peer_via_http, close_pending_transport, accept_answer,
  connect_with_did,
}
use rings_node.Rpc.{handle}
use rings_node.Rpc.Replies.{Json}
use rings_node.Rpc.Names.{Method}
use rings_node.Handler.{MessageHandler, listen_once}
use rings_node.Handler.Stabilization.{stabilize}
use rings_node.Handler.Storage.{
  storage_store, storage_fetch, storage_append_data, storage_touch_data, subring_join,
}

-- `P` are the parameters of RPC calls.
pub data Input (P : Type 0) : Type 0 where
  arrives : Result (Option Event) → Input P
  ticks : Input P
  sends : Message → Did → Input P
  connects disconnects fetches : Did → Input P
  stores : VirtualNode → Input P
  appends touches : String → Encoded → Input P
  joins : String → Input P
  offers : Input P
  answers links closes : String → Input P
  accepts : (transport_id ice : String) → Input P
  opens : Did → Bool → Input P
  drops : Did → Input P
  asks : Bool → Method → P → Input P

module _ {K Sk S C W P V : Type 0} (env : Env K Sk S C W) (client : Client W) (js : Json P V W)
    (handler : MessageHandler K Sk S C W) where
  -- The state after an input, whatever its outcome.
  unfoldable pub step : Input P → Swarm K Sk S C W → Swarm K Sk S C W
  step (arrives ev) self = (listen_once env handler ev self).1
  step ticks self = (stabilize env self).1
  step (sends msg destination) self = (send_message env msg destination self).1
  step (connects did) self = (connect env did self).1
  step (disconnects did) self = (disconnect env did self).1
  step (fetches vid) self = (storage_fetch env vid self).1
  step (stores vnode) self = (storage_store env vnode self).1
  step (appends topic content) self = (storage_append_data env topic content self).1
  step (touches topic content) self = (storage_touch_data env topic content self).1
  step (joins name) self = (subring_join env name self).1
  step offers self = (create_offer env self).1
  step (answers ice_info) self = (answer_offer env ice_info self).1
  step (links url) self = (connect_peer_via_http env client url self).1
  step (closes transport_id) self = (close_pending_transport env transport_id self).1
  step (accepts transport_id ice) self = (accept_answer env transport_id ice self).1
  step (opens did wait_for_open) self = (connect_with_did env did wait_for_open self).1
  step (drops did) self = (Processor.disconnect env did self).1
  step (asks is_auth method params) self = (handle env client js is_auth method params self).1

  unfoldable pub run : List (Input P) → Swarm K Sk S C W → Swarm K Sk S C W
  unfolding step
  run [] self = self
  run (i ∷ inputs) self = run inputs (step i self)
