-- ===== src/Rpc/Auth.antt =====
-- Who may ask for what.
use rings_node.Base.{◌≡◌, refl, Bool, true, false}
use rings_node.Error.{err, no_permission}
use rings_node.Act.{bound}
use rings_node.Swarm.{Swarm, Env}
use rings_node.Processor.{Client}
use rings_node.Rpc.Names as Names
use rings_node.Rpc.Names.{Method}
use rings_node.Rpc.{
  handle, connect_with_did, create_offer, accept_answer, list_peers, close_connection,
  list_pendings, close_pending_transport, send_raw_message, send_custom_message,
  send_simple_text_message, send_http_request_message, publish_message_to_topic,
  fetch_messages_of_topic, register_service, lookup_service,
}
use rings_node.Rpc.Replies.{Json}

-- The methods that anyone may call.
abbrev pub is_open : Method → Bool
is_open Names.connect_peer_via_http = true
is_open Names.connect_with_seed = true
is_open Names.answer_offer = true
is_open Names.poll_message = true
is_open _ = false

module _ {K Sk S C W P V : Type 0} (env : Env K Sk S C W) (cl : Client W) (js : Json P V W) where
  -- Without a signature every method but `connectPeerViaHttp`, `connectWithSeed`, `answerOffer` and `pollMessage` is
  -- refused with nothing changed, whatever its parameters are; for these four the signature does not count.
  pub handle-auth :
      (m : Method) (params : P) (s : Swarm K Sk S C W)
      → (is_open m ≡ false → handle env cl js false m params s ≡ (err no_permission, s))
        × (is_open m ≡ true → handle env cl js false m params s ≡ handle env cl js true m params s)
  unfolding bound handle connect_with_did create_offer accept_answer list_peers close_connection
      list_pendings close_pending_transport send_raw_message send_custom_message
      send_simple_text_message send_http_request_message publish_message_to_topic
      fetch_messages_of_topic register_service lookup_service
  handle-auth Names.connect_peer_via_http params s = (λ e. cc, λ e. refl)
  handle-auth Names.connect_with_did params s = (λ e. refl, λ e. cc)
  handle-auth Names.connect_with_seed params s = (λ e. cc, λ e. refl)
  handle-auth Names.list_peers params s = (λ e. refl, λ e. cc)
  handle-auth Names.create_offer params s = (λ e. refl, λ e. cc)
  handle-auth Names.answer_offer params s = (λ e. cc, λ e. refl)
  handle-auth Names.accept_answer params s = (λ e. refl, λ e. cc)
  handle-auth Names.send_to params s = (λ e. refl, λ e. cc)
  handle-auth Names.disconnect params s = (λ e. refl, λ e. cc)
  handle-auth Names.list_pendings params s = (λ e. refl, λ e. cc)
  handle-auth Names.close_pending_transport params s = (λ e. refl, λ e. cc)
  handle-auth Names.send_simple_text params s = (λ e. refl, λ e. cc)
  handle-auth Names.send_http_request_message params s = (λ e. refl, λ e. cc)
  handle-auth Names.send_custom_message params s = (λ e. refl, λ e. cc)
  handle-auth Names.publish_message_to_topic params s = (λ e. refl, λ e. cc)
  handle-auth Names.fetch_messages_of_topic params s = (λ e. refl, λ e. cc)
  handle-auth Names.register_service params s = (λ e. refl, λ e. cc)
  handle-auth Names.lookup_service params s = (λ e. refl, λ e. cc)
  handle-auth Names.poll_message params s = (λ e. cc, λ e. refl)
