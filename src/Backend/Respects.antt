-- ===== src/Backend/Respects.antt =====
-- The backend leaves the ring of its node as it is, as a node in operation asks of its callback.
use rings_node.Base.{ℕ, refl, sym, subst, some, List, [], ◌∷◌}
use rings_node.Did.{Did}
use rings_node.Relay.{MessageRelay}
use rings_node.Chunk.{Chunk}
use rings_node.Message.{Message, MaybeEncrypted}
use rings_node.Payload.{MessagePayload}
use rings_node.Chord.Sound.{IsSound}
use rings_node.Swarm.{Env}
use rings_node.Swarm.Same.{
  Same, bind-Same, option-Same, if-Same, is_ok-Same, or_raise-Same, send_report_message-Same,
}
use rings_node.Handler.Invariant.{IsCallback}
use rings_node.Processor.Same.{map_err-Same}
use rings_node.Backend.{
  BackendMessage, HttpRequest, MessageType, unknown, empty, simple_text, http_request,
  http_response,
}
use rings_node.Backend.Service.{
  Web, HiddenServerConfig, execute, send_chunk_report_message, send_chunks, serve, by_type,
  on_custom, backend,
}

module _ {K Sk S C W : Type 0} (web : Web W) (env : Env K Sk S C W)
    (services : List HiddenServerConfig) where
  execute-Same : (request : HttpRequest) → Same (execute web env services request)
  unfolding execute
  execute-Same request = bind-Same _ _ (or_raise-Same _ _) λ service.
      bind-Same _ _ (λ s. refl)
        λ url.
          bind-Same _ _ (λ s. refl)
            λ method.
              bind-Same _ _ (λ s. refl)
                λ headers.
                  bind-Same _ _ (λ s. refl)
                    λ resp. bind-Same _ _ (or_raise-Same _ _) (λ body s. refl)

  module _ (ctx : MessagePayload K Message) (back : MessageRelay) where
    send_chunk_report_message-Same :
        (bytes : List ℕ) → Same (send_chunk_report_message web env services ctx back bytes)
    unfolding send_chunk_report_message
    send_chunk_report_message-Same bytes =
        bind-Same _ _ (map_err-Same _ _ (λ s. refl))
          (λ msg. map_err-Same _ _ (send_report_message-Same env msg ctx.tx_id back))

    send_chunks-Same : (chunks : List Chunk) → Same (send_chunks web env services ctx back chunks)
    unfolding send_chunks
    send_chunks-Same [] = λ s. refl
    send_chunks-Same (c ∷ chunks) =
        bind-Same _ _ (or_raise-Same _ _) λ bytes.
          bind-Same _ _ (send_chunk_report_message-Same bytes) (λ _. send_chunks-Same chunks)

    serve-Same : (msg : BackendMessage) → Same (serve web env services ctx back msg)
    unfolding serve
    serve-Same msg = bind-Same _ _ (or_raise-Same _ _) λ req.
        bind-Same _ _ (execute-Same req) λ resp. bind-Same _ _ (or_raise-Same _ _) λ json.
          bind-Same _ _ (or_raise-Same _ _) λ bytes. bind-Same _ _ (λ s. refl) send_chunks-Same

    by_type-Same :
        (t : MessageType) (msg : BackendMessage) → Same (by_type web env services ctx back t msg)
    unfolding by_type
    by_type-Same simple_text msg = if-Same (web.is_utf8 msg.body) _ _ (λ s. refl) (λ s. refl)
    by_type-Same http_request msg = serve-Same msg
    by_type-Same unknown msg = λ s. refl
    by_type-Same empty msg = λ s. refl
    by_type-Same http_response msg = λ s. refl

  on_custom-Same :
      (ctx : MessagePayload K Message) (msg : MaybeEncrypted (List ℕ))
      → Same (on_custom web env services ctx msg)
  unfolding on_custom
  on_custom-Same ctx msg =
      bind-Same _ _ (λ s. refl)
        λ back.
          bind-Same _ _ (λ s. refl)
            λ found.
              option-Same found _ _ (λ s. refl)
                (λ m. bind-Same _ _ (is_ok-Same _ (by_type-Same ctx back _ m)) (λ _ s. refl))

  -- Whatever custom messages arrive and whatever services are asked, the backend keeps a sound node sound.
  pub backend-IsCallback : (own : Did) → IsCallback own (some (backend web env services))
  backend-IsCallback own = (
    λ payload msg s p. subst (IsSound own) (sym (on_custom-Same payload msg s)) p,
    λ payload s p. p,
  )
