-- ===== src/Node/Examples.antt =====
-- The theorem on a node in operation at a short run: node 20 joins, the node stabilizes, stores a virtual node
-- disconnects, answers an offer, closes that connection and is asked to publish a text.
use rings_node.Base.{ℕ, true, String, ◌≡◌, refl, some, List, [], ◌∷◌, arith, subst}
use rings_node.Error.{ok, ok-inj}
use rings_node.VNode.{data_type}
use rings_node.Chord.Sound.{IsSound}
use rings_node.Payload.{MessagePayload}
use rings_node.Message.{Message}
use rings_node.Swarm.{data_channel_message, register_transport}
use rings_node.Swarm.Builder.{
  SwarmBuilder, new_builder, session_manager as with_session, build, manager_of,
}
use rings_node.Handler.Invariant.{IsMessage}
use rings_node.Backend.Respects.{backend-IsCallback}
use rings_node.Node.{
  Input, arrives, ticks, stores, disconnects, connects, answers, drops, asks, run,
}
use rings_node.Rpc.Names.{publish_message_to_topic}
use rings_node.Node.Invariant.{run-IsSound, Decodes}
use rings_node.Node.Samples.{env, Items, alone, session_manager, serving, world, client, json, web}

abbrev builder : SwarmBuilder ℕ ℕ Items
builder = with_session 10 session_manager (new_builder [])

abbrev inputs : List (Input (List String))
inputs =
    arrives (ok (some (data_channel_message (1 ∷ []))))
    ∷ arrives (ok (some (register_transport 20 7)))
    ∷ ticks
    ∷ stores (record { did = 15; payload = "a" ∷ []; kind = data_type })
    ∷ connects 20
    ∷ disconnects 20
    ∷ answers "offer"
    ∷ drops 30
    ∷ asks true publish_message_to_topic ("topic" ∷ "text" ∷ [])
    ∷ []

built : build env builder 11 [] world ≡ ok alone
unfolding build manager_of
built = refl

decodes : Decodes env
unfolding IsMessage
decodes bytes p e =
    subst (λ (q : MessagePayload ℕ Message). IsMessage q.content) (ok-inj e) (omega arith)

run-IsSound_example : IsSound 10 (run env client json serving inputs alone).dht
run-IsSound_example =
    run-IsSound env 10 builder 11 [] world alone client json serving inputs built refl (omega arith)
      (omega arith) (backend-IsCallback web env [] 10, tt) decodes
      (tt, (omega arith, (tt, (tt, (tt, (tt, (tt, (tt, (tt, tt)))))))))
