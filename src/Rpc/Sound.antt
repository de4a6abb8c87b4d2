-- ===== src/Rpc/Sound.antt =====
-- Whatever is asked of a node by JSON-RPC, it stays sound.
use rings_node.Base.{refl, Bool, List}
use rings_node.Did.{Did}
use rings_node.VNode.{Encoded}
use rings_node.Act.{Act, ◌>>=◌}
use rings_node.Act.Keeps.{Keeps, keeps, bind-Keeps, option-Keeps}
use rings_node.Swarm.{Swarm, Env}
use rings_node.Swarm.Same.{Same}
use rings_node.Handler.Sound.{Sound, Same-Sound}
use rings_node.Processor.{Client}
use rings_node.Processor.Sound.{
  storage_fetch-Sound, storage_append_data-Sound, register_service-Sound,
}
use rings_node.Rpc.{
  fetched_texts, publish_message_to_topic, fetch_messages_of_topic, register_service,
  lookup_service, handle,
}
use rings_node.Rpc.Replies.{Json, Reply, replies}
use rings_node.Rpc.Names as Names
use rings_node.Rpc.Names.{Method}
use rings_node.Rpc.Same.{
  parsed-Same, require_authed-Same, text_at-Same, rpc_connect_peer_via_http-Same,
  connect_with_seed-Same, rpc_answer_offer-Same, poll_message-Same, rpc_connect_with_did-Same,
  rpc_create_offer-Same, rpc_accept_answer-Same, list_peers-Same, close_connection-Same,
  list_pendings-Same, rpc_close_pending_transport-Same, send_raw_message-Same,
  send_custom_message-Same, send_simple_text_message-Same, send_http_request_message-Same,
}

-- A step that leaves the ring as it is, and one that keeps it sound.
module _ {K Sk S C W A B : Type 0} (own : Did) where
  quiet-Sound :
      (m : Act (Swarm K Sk S C W) A) (f : A → Act (Swarm K Sk S C W) B)
      → Same m
      → ((a : A) → Keeps (Sound own) (f a))
      → Keeps (Sound own) (m >>= f)
  quiet-Sound m f h hf = bind-Keeps (Sound own) m f (Same-Sound own m h) hf

module _ {K Sk S C W P V : Type 0} (env : Env K Sk S C W) (cl : Client W) (js : Json P V W)
    (own : Did) where
  replies-Sound :
      {A : Type 0} (m : Act (Swarm K Sk S C W) A) (f : A → Reply)
      → Keeps (Sound own) m
      → Keeps (Sound own) (replies m f)
  replies-Sound m f h = bind-Keeps (Sound own) _ _ h (λ a. keeps (Sound own) _ (λ s p. p))

  fetched_texts-Sound :
      (b : Bool) (vid : Did) (part : List Encoded → List Encoded)
      → Keeps (Sound own) (fetched_texts env cl js b vid part)
  fetched_texts-Sound b vid part = bind-Keeps (Sound own) _ _ (storage_fetch-Sound env own vid) λ _.
      quiet-Sound own _ _ (λ s. refl)
        λ found.
          option-Keeps (Sound own) found _ _ (keeps (Sound own) _ (λ s p. p))
            (λ v. keeps (Sound own) _ (λ s p. p))

  module _ (b : Bool) where
    publish_message_to_topic-Sound :
        (params : P) → Keeps (Sound own) (publish_message_to_topic env cl js b params)
    unfolding publish_message_to_topic
    publish_message_to_topic-Sound params = quiet-Sound own _ _ (require_authed-Same b) λ _.
        quiet-Sound own _ _ (parsed-Same _) λ l.
          quiet-Sound own _ _ (text_at-Same env cl js l 0) λ topic.
            quiet-Sound own _ _ (text_at-Same env cl js l 1) λ text.
              quiet-Sound own _ _ (parsed-Same _)
                λ content. replies-Sound _ _ (storage_append_data-Sound env own topic content)

    fetch_messages_of_topic-Sound :
        (params : P) → Keeps (Sound own) (fetch_messages_of_topic env cl js b params)
    unfolding fetch_messages_of_topic
    fetch_messages_of_topic-Sound params = quiet-Sound own _ _ (require_authed-Same b) λ _.
        quiet-Sound own _ _ (parsed-Same _) λ l.
          quiet-Sound own _ _ (text_at-Same env cl js l 0) λ topic.
            quiet-Sound own _ _ (parsed-Same _) λ v.
              quiet-Sound own _ _ (parsed-Same _)
                λ index. quiet-Sound own _ _ (λ s. refl) λ vid. fetched_texts-Sound b vid _

    register_service-Kept : (params : P) → Keeps (Sound own) (register_service env cl js b params)
    unfolding register_service
    register_service-Kept params = quiet-Sound own _ _ (require_authed-Same b) λ _.
        quiet-Sound own _ _ (parsed-Same _) λ l.
          quiet-Sound own _ _ (text_at-Same env cl js l 0)
            λ name. replies-Sound _ _ (register_service-Sound env own cl name)

    lookup_service-Sound : (params : P) → Keeps (Sound own) (lookup_service env cl js b params)
    unfolding lookup_service
    lookup_service-Sound params = quiet-Sound own _ _ (require_authed-Same b) λ _.
        quiet-Sound own _ _ (parsed-Same _) λ l.
          quiet-Sound own _ _ (text_at-Same env cl js l 0)
            λ name. quiet-Sound own _ _ (λ s. refl) λ rid. fetched_texts-Sound b rid _

  -- Whatever method is called, signed or not, and whatever its parameters are.
  pub handle-Sound :
      (b : Bool) (m : Method) (params : P) → Keeps (Sound own) (handle env cl js b m params)
  unfolding handle
  handle-Sound b Names.connect_peer_via_http params =
      Same-Sound own _ (rpc_connect_peer_via_http-Same env cl js params)
  handle-Sound b Names.connect_with_did params =
      Same-Sound own _ (rpc_connect_with_did-Same env cl js b params)
  handle-Sound b Names.connect_with_seed params =
      Same-Sound own _ (connect_with_seed-Same env cl js params)
  handle-Sound b Names.list_peers params = Same-Sound own _ (list_peers-Same env cl js b params)
  handle-Sound b Names.create_offer params =
      Same-Sound own _ (rpc_create_offer-Same env cl js b params)
  handle-Sound b Names.answer_offer params =
      Same-Sound own _ (rpc_answer_offer-Same env cl js params)
  handle-Sound b Names.accept_answer params =
      Same-Sound own _ (rpc_accept_answer-Same env cl js b params)
  handle-Sound b Names.send_to params = Same-Sound own _ (send_raw_message-Same env cl js b params)
  handle-Sound b Names.disconnect params =
      Same-Sound own _ (close_connection-Same env cl js b params)
  handle-Sound b Names.list_pendings params =
      Same-Sound own _ (list_pendings-Same env cl js b params)
  handle-Sound b Names.close_pending_transport params =
      Same-Sound own _ (rpc_close_pending_transport-Same env cl js b params)
  handle-Sound b Names.send_simple_text params =
      Same-Sound own _ (send_simple_text_message-Same env cl js b params)
  handle-Sound b Names.send_http_request_message params =
      Same-Sound own _ (send_http_request_message-Same env cl js b params)
  handle-Sound b Names.send_custom_message params =
      Same-Sound own _ (send_custom_message-Same env cl js b params)
  handle-Sound b Names.publish_message_to_topic params = publish_message_to_topic-Sound b params
  handle-Sound b Names.fetch_messages_of_topic params = fetch_messages_of_topic-Sound b params
  handle-Sound b Names.register_service params = register_service-Kept b params
  handle-Sound b Names.lookup_service params = lookup_service-Sound b params
  handle-Sound b Names.poll_message params = Same-Sound own _ (poll_message-Same env cl js params)
