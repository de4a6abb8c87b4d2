-- ===== src/Rpc/Same.antt =====
-- The methods that leave the ring of the node as it is: all but those that store or fetch data.
use rings_node.Base.{ℕ, ◌≡◌, refl, ◌∙◌, ◌^◌, ltb, Bool, true, false, Option, List, [], ◌∷◌}
use rings_node.Error.{Error, Result, ok, err, panic, invalid_params}
use rings_node.Act.{Act, ◌>>=◌}
use rings_node.Swarm.{Swarm, Env}
use rings_node.Swarm.Same.{Same, bind-Same, if-Same, or_raise-Same, pending_transports-Same}
use rings_node.Processor as Processor
use rings_node.Processor.{Client}
use rings_node.Processor.Same.{
  map_err-Same, create_offer-Same, answer_offer-Same, connect_with_did-Same, accept_answer-Same,
  disconnect-Same, close_pending_transport-Same, connect_peer_via_http-Same,
}
use rings_node.Processor.Sound.{sent-Same}
use rings_node.Rpc.{
  connect_peer_via_http, connect_each, connect_with_seed, answer_offer, connect_with_did,
  create_offer, accept_answer, list_peers, close_connection, list_pendings, close_pending_transport,
  send_raw_message, send_custom_message, send_simple_text_message, send_http_request_message,
  poll_message,
}
use rings_node.Rpc.Replies.{
  Json, Reply, SeedPeer, parsed, replies, require_authed, attempted, first_error, first_string,
  text_at,
}

module _ {K Sk S C W : Type 0} where
  pub parsed-Same :
      {A : Type 0} (o : Option A) → Same {K = K} {Sk = Sk} {S = S} {C = C} {W = W} (parsed o)
  parsed-Same o = or_raise-Same o invalid_params

  pub replies-Same :
      {A : Type 0} (m : Act (Swarm K Sk S C W) A) (f : A → Reply) → Same m → Same (replies m f)
  replies-Same m f h = bind-Same _ _ h (λ a s. refl)

  pub require_authed-Same :
      (b : Bool) → Same {K = K} {Sk = Sk} {S = S} {C = C} {W = W} (require_authed b)
  require_authed-Same true s = refl
  require_authed-Same false s = refl

  authed-Same :
      {A : Type 0} (b : Bool) (m : Act (Swarm K Sk S C W) A)
      → Same m
      → Same (require_authed b >>= λ _. m)
  authed-Same b m h = bind-Same _ _ (require_authed-Same b) (λ _. h)

  first_error-Same :
      (e : Error) (r : Result (Unit {0}) × Swarm K Sk S C W) → ((first_error e r).1).dht ≡ (r.1).dht
  first_error-Same e (ok _, s) = refl
  first_error-Same e (err _, s) = refl
  first_error-Same e (panic, s) = refl

  attempted-Same :
      (r : Result ℕ × Swarm K Sk S C W) (others : Act (Swarm K Sk S C W) (Unit {0}))
      → Same others
      → ((attempted r others).1).dht ≡ (r.1).dht
  attempted-Same (ok _, s) others h = h s
  attempted-Same (err e, s) others h = first_error-Same e (others s) ∙ h s
  attempted-Same (panic, s) others h = refl

module _ {K Sk S C W P V : Type 0} (env : Env K Sk S C W) (cl : Client W) (js : Json P V W) where
  pub first_string-Same :
      (params : P) → Same {K = K} {Sk = Sk} {S = S} {C = C} (first_string js params)
  first_string-Same params = bind-Same _ _ (parsed-Same _) (λ p. parsed-Same _)

  pub text_at-Same : (l : List V) (i : ℕ) → Same {K = K} {Sk = Sk} {S = S} {C = C} (text_at js l i)
  text_at-Same l i = bind-Same _ _ (parsed-Same _) (λ v. parsed-Same _)

  pub rpc_connect_peer_via_http-Same : (params : P) → Same (connect_peer_via_http env cl js params)
  unfolding connect_peer_via_http
  rpc_connect_peer_via_http-Same params =
      bind-Same _ _ (first_string-Same params)
        λ url. replies-Same _ _ (connect_peer_via_http-Same env cl url)

  connect_each-Same : (l : List SeedPeer) → Same (connect_each env cl js l)
  unfolding connect_each
  connect_each-Same [] s = refl
  connect_each-Same (x ∷ l) s =
      attempted-Same _ (connect_each env cl js l) (connect_each-Same l)
      ∙ connect_peer_via_http-Same env cl x.endpoint s

  pub connect_with_seed-Same : (params : P) → Same (connect_with_seed env cl js params)
  unfolding connect_with_seed
  connect_with_seed-Same params = bind-Same _ _ (parsed-Same _) λ p.
      bind-Same _ _ (parsed-Same _) λ seed.
        bind-Same _ _ (λ s. refl)
          λ dids. bind-Same _ _ (λ s. refl) λ own. replies-Same _ _ (connect_each-Same _)

  pub rpc_answer_offer-Same : (params : P) → Same (answer_offer env cl js params)
  unfolding answer_offer
  rpc_answer_offer-Same params =
      bind-Same _ _ (first_string-Same params) λ info. replies-Same _ _ (answer_offer-Same env info)

  pub poll_message-Same : (params : P) → Same (poll_message env cl js params)
  unfolding poll_message
  poll_message-Same params = bind-Same _ _ (parsed-Same _) (λ l s. refl)

  module _ (b : Bool) where
    pub rpc_connect_with_did-Same : (params : P) → Same (connect_with_did env cl js b params)
    unfolding connect_with_did
    rpc_connect_with_did-Same params = authed-Same b _ (
        bind-Same _ _ (first_string-Same params)
          λ a. bind-Same _ _ (λ s. refl) λ d. replies-Same _ _ (connect_with_did-Same env d true))

    pub rpc_create_offer-Same : (params : P) → Same (create_offer env cl js b params)
    unfolding create_offer
    rpc_create_offer-Same params = authed-Same b _ (replies-Same _ _ (create_offer-Same env))

    pub rpc_accept_answer-Same : (params : P) → Same (accept_answer env cl js b params)
    unfolding accept_answer
    rpc_accept_answer-Same params = authed-Same b _ (
        bind-Same _ _ (parsed-Same _) λ p.
          bind-Same _ _ (λ s. refl)
            λ two.
              bind-Same _ _ (accept_answer-Same env two.0 two.1)
                (λ q. bind-Same _ _ (λ s. refl) (λ st s. refl)))

    pub list_peers-Same : (params : P) → Same (list_peers env cl js b params)
    unfolding list_peers Processor.list_peers
    list_peers-Same params = authed-Same b _ (bind-Same _ _ (λ s. refl) (λ l s. refl))

    pub close_connection-Same : (params : P) → Same (close_connection env cl js b params)
    unfolding close_connection
    close_connection-Same params = authed-Same b _ (
        bind-Same _ _ (first_string-Same params)
          λ a. bind-Same _ _ (λ s. refl) λ d. replies-Same _ _ (disconnect-Same env d))

    pub list_pendings-Same : (params : P) → Same (list_pendings env cl js b params)
    unfolding list_pendings Processor.list_pendings
    list_pendings-Same params =
        authed-Same b _ (bind-Same _ _ (map_err-Same _ _ pending_transports-Same) (λ l s. refl))

    pub rpc_close_pending_transport-Same :
        (params : P) → Same (close_pending_transport env cl js b params)
    unfolding close_pending_transport
    rpc_close_pending_transport-Same params = authed-Same b _ (
        bind-Same _ _ (first_string-Same params)
          λ id. replies-Same _ _ (close_pending_transport-Same env id))

    pub send_raw_message-Same : (params : P) → Same (send_raw_message env cl js b params)
    unfolding send_raw_message
    send_raw_message-Same params = authed-Same b _ (
        bind-Same _ _ (parsed-Same _) λ fields. bind-Same _ _ (parsed-Same _) λ d.
          bind-Same _ _ (parsed-Same _) λ destination. bind-Same _ _ (parsed-Same _) λ t.
            bind-Same _ _ (parsed-Same _) λ text. replies-Same _ _ (sent-Same env destination _))

    pub send_custom_message-Same : (params : P) → Same (send_custom_message env cl js b params)
    unfolding send_custom_message
    send_custom_message-Same params = authed-Same b _ (
        bind-Same _ _ (parsed-Same _) λ l. bind-Same _ _ (text_at-Same l 0) λ destination.
          bind-Same _ _ (parsed-Same _) λ v. bind-Same _ _ (parsed-Same _) λ n.
            bind-Same _ _ (if-Same (ltb n (2 ^ 16)) _ _ (λ s. refl) (λ s. refl)) λ message_type.
              bind-Same _ _ (text_at-Same l 2) λ text.
                bind-Same _ _ (parsed-Same _)
                  λ bytes. replies-Same _ _ (sent-Same env destination _))

    pub send_simple_text_message-Same :
        (params : P) → Same (send_simple_text_message env cl js b params)
    unfolding send_simple_text_message
    send_simple_text_message-Same params = authed-Same b _ (
        bind-Same _ _ (parsed-Same _) λ l. bind-Same _ _ (text_at-Same l 0) λ destination.
          bind-Same _ _ (text_at-Same l 1) λ text. replies-Same _ _ (sent-Same env destination _))

    pub send_http_request_message-Same :
        (params : P) → Same (send_http_request_message env cl js b params)
    unfolding send_http_request_message
    send_http_request_message-Same params = authed-Same b _ (
        bind-Same _ _ (parsed-Same _) λ l. bind-Same _ _ (text_at-Same l 0) λ destination.
          bind-Same _ _ (parsed-Same _) λ p2. bind-Same _ _ (parsed-Same _) λ request.
            bind-Same _ _ (λ s. refl) λ msg. replies-Same _ _ (sent-Same env destination _))
