-- ===== src/Handler/Custom.antt =====
-- The handler of rings-core/src/message/handlers/custom.rs.
use rings_node.Base.{not, none, some, ◌==◌, if◌then◌else◌}
use rings_node.Message.{Message}
use rings_node.Payload.{MessagePayload}
use rings_node.Act.{Act, gets, done, ◌>>=◌}
use rings_node.Swarm.{Swarm, Env, did}
use rings_node.Swarm.Transports.{get_transport}
use rings_node.Handler.Connection.{pass_on, pass_on_to_closest}

module _ {K Sk S C W : Type 0} (env : Env K Sk S C W) (ctx : MessagePayload K Message) where
  unfoldable pub handle_custom_message : Act (Swarm K Sk S C W) (Unit {0})
  handle_custom_message = do
    own ← gets did
    if not (own == ctx.relay.destination)
        then (do
          found ← gets (get_transport ctx.relay.destination)
          elim found [
            | some _ ↦ pass_on env ctx ctx.relay.destination
            | none ↦ pass_on_to_closest env ctx
          ])
        else done
