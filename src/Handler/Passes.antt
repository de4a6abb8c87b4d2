-- ===== src/Handler/Passes.antt =====
-- The parts of handlers that only read the ring and send.
use rings_node.Base.{refl, Bool, not, ◌||◌, Option, none, some, String, ◌==◌}
use rings_node.Did.{Did}
use rings_node.Relay.{MessageRelay}
use rings_node.Action.{PeerRingAction, nothing, some_vnode, some_node, remote_action, multi_actions}
use rings_node.Action
use rings_node.Message.{Message, FindSuccessorThen, report}
use rings_node.Payload.{MessagePayload}
use rings_node.Act.{Act}
use rings_node.Swarm.{Swarm, Env}
use rings_node.Swarm.Same.{
  Same, bind-Same, option-Same, if-Same, get_and_check_transport-Same, new_transport-Same,
  push_pending_transport-Same, find_pending_transport-Same, connect-Same, send_message-Same,
  send_direct_message-Same, send_report_message-Same, forward_payload-Same, or_raise-Same,
}
use rings_node.Handler.Connection.{
  pass_on, pass_on_to_closest, joined, accept, handle_connect_node_send, at_end,
  handle_connect_node_report, handle_already_connected,
}
use rings_node.Handler.Lookup.{
  answer_lookup, continue_lookup, looked_up, handle_find_successor_send, is_stranger, connect_to,
  report_predecessor,
}
use rings_node.Handler.Storage.{sent_to, operated, searched, handle_search_vnode, operated_for}
use rings_node.Handler.Custom.{handle_custom_message}

module _ {K Sk S C W : Type 0} (env : Env K Sk S C W) where
  pub connect_to-Same : (d : Did) → Same (connect_to env d)
  connect_to-Same d = bind-Same _ _ (connect-Same env d) (λ _ s. refl)

  pub is_stranger-Same : (d : Did) → Same (is_stranger env d)
  unfolding is_stranger
  is_stranger-Same d =
      bind-Same _ _ (get_and_check_transport-Same env d)
        (λ found. bind-Same _ _ (λ s. refl) (λ own s. refl))

  pub sent_to-Same : (msg : Message) (d : Did) → Same (sent_to env msg d)
  sent_to-Same msg d = bind-Same _ _ (send_message-Same env msg d) (λ _ s. refl)

  pub operated-Same : (a : PeerRingAction) → Same (operated env a)
  unfolding operated
  operated-Same (remote_action t (Action.find_vnode_for_operate op)) s = sent_to-Same _ t s
  operated-Same (remote_action t (Action.find_successor _)) s = refl
  operated-Same (remote_action t (Action.find_vnode _)) s = refl
  operated-Same (remote_action t (Action.notify _)) s = refl
  operated-Same (remote_action t (Action.sync_vnode_with_successor _)) s = refl
  operated-Same (remote_action t (Action.find_successor_for_connect _)) s = refl
  operated-Same (remote_action t (Action.find_successor_for_fix _)) s = refl
  operated-Same (remote_action t Action.check_predecessor) s = refl
  operated-Same nothing s = refl
  operated-Same (some_vnode _) s = refl
  operated-Same (some_node _) s = refl
  operated-Same (multi_actions _) s = refl

module _ {K Sk S C W : Type 0} (env : Env K Sk S C W) (ctx : MessagePayload K Message) where
  pub pass_on-Same : (next : Did) → Same (pass_on env ctx next)
  unfolding pass_on
  pass_on-Same next = bind-Same _ _ (λ s. refl) (λ hop. forward_payload-Same env ctx hop)

  pub pass_on_to_closest-Same : Same (pass_on_to_closest env ctx)
  unfolding pass_on_to_closest
  pass_on_to_closest-Same =
      bind-Same _ _ (λ s. refl) λ action. bind-Same _ _ (or_raise-Same _ _) pass_on-Same

  at_end-Same :
      (m : Act (Swarm K Sk S C W) (Unit {0})) (hop : MessageRelay)
      → Same m
      → Same (at_end env ctx m hop)
  at_end-Same m hop h = option-Same hop.next_hop _ _ h (λ _. forward_payload-Same env ctx hop)

  pub joined-Same : (a : PeerRingAction) → Same (joined env ctx a)
  unfolding joined
  joined-Same (remote_action n (Action.find_successor_for_connect d)) s =
      if-Same (not (n == ctx.addr)) _ _
        (bind-Same _ _ (send_direct_message-Same env _ n) (λ _ s'. refl)) (λ s'. refl) s
  joined-Same (remote_action t (Action.find_successor _)) s = refl
  joined-Same (remote_action t (Action.find_vnode _)) s = refl
  joined-Same (remote_action t (Action.find_vnode_for_operate _)) s = refl
  joined-Same (remote_action t (Action.notify _)) s = refl
  joined-Same (remote_action t (Action.sync_vnode_with_successor _)) s = refl
  joined-Same (remote_action t (Action.find_successor_for_fix _)) s = refl
  joined-Same (remote_action t Action.check_predecessor) s = refl
  joined-Same nothing s = refl
  joined-Same (some_vnode _) s = refl
  joined-Same (some_node _) s = refl
  joined-Same (multi_actions _) s = refl

  accept-Same : (id info : String) (hop : MessageRelay) → Same (accept env ctx id info hop)
  unfolding accept
  accept-Same id info hop = bind-Same _ _ (new_transport-Same env) λ t.
      bind-Same _ _ (λ s. refl)
        λ _.
          bind-Same _ _ (λ s. refl)
            λ answer_info.
              bind-Same _ _ (send_report_message-Same env _ ctx.tx_id hop)
                λ _. push_pending_transport-Same t

  pub handle_connect_node_send-Same :
      (id info : String) → Same (handle_connect_node_send env ctx id info)
  unfolding handle_connect_node_send
  handle_connect_node_send-Same id info =
      bind-Same _ _ (λ s. refl)
        λ own.
          if-Same (not (own == ctx.relay.destination)) _ _
            (bind-Same _ _ (get_and_check_transport-Same env ctx.relay.destination) λ found.
              option-Same found _ _ pass_on_to_closest-Same
                (λ _. pass_on-Same ctx.relay.destination))
            (bind-Same _ _ (λ s. refl)
              λ hop.
                bind-Same _ _ (λ s. refl)
                  λ from. bind-Same _ _ (get_and_check_transport-Same env from) λ found.
                    option-Same found _ _ (accept-Same id info hop)
                      (λ _. send_report_message-Same env _ ctx.tx_id hop))

  pub handle_connect_node_report-Same :
      (id info : String) → Same (handle_connect_node_report env ctx id info)
  unfolding handle_connect_node_report
  handle_connect_node_report-Same id info =
      bind-Same _ _ (λ s. refl)
        λ hop. at_end-Same _ hop (
          bind-Same _ _ (or_raise-Same _ _) λ uuid.
            bind-Same _ _ (find_pending_transport-Same uuid) λ found.
              bind-Same _ _ (or_raise-Same _ _) λ t. bind-Same _ _ (λ s. refl) (λ _ s. refl))

  pub handle_already_connected-Same : Same (handle_already_connected env ctx)
  unfolding handle_already_connected
  handle_already_connected-Same =
      bind-Same _ _ (λ s. refl)
        λ hop. at_end-Same _ hop (
          bind-Same _ _ (λ s. refl)
            λ from.
              bind-Same _ _ (get_and_check_transport-Same env from)
                λ found. bind-Same _ _ (or_raise-Same _ _) λ t s. refl)

  answer_lookup-Same : (d : Did) (t : FindSuccessorThen) → Same (answer_lookup env ctx d t)
  unfolding answer_lookup
  answer_lookup-Same d (report h) =
      bind-Same _ _ (λ s. refl) (λ hop. send_report_message-Same env _ ctx.tx_id hop)

  continue_lookup-Same : (next : Did) → Same (continue_lookup env ctx next)
  unfolding continue_lookup
  continue_lookup-Same next =
      bind-Same _ _ (λ s. refl) λ hop. bind-Same _ _ (λ s. refl) (forward_payload-Same env ctx)

  looked_up-Same :
      (d : Did) (strict : Bool) (t : FindSuccessorThen) (a : PeerRingAction)
      → Same (looked_up env ctx d strict t a)
  unfolding looked_up
  looked_up-Same d strict t (some_node found) =
      bind-Same _ _ (λ s. refl)
        λ own. if-Same (not strict || own == d) _ _ (answer_lookup-Same found t) (
          bind-Same _ _ (get_and_check_transport-Same env d) λ transport.
            option-Same transport _ _ (λ s. refl) (λ _. pass_on-Same ctx.relay.destination))
  looked_up-Same d strict t (remote_action next _) = continue_lookup-Same next
  looked_up-Same d strict t nothing = λ s. refl
  looked_up-Same d strict t (some_vnode _) = λ s. refl
  looked_up-Same d strict t (multi_actions _) = λ s. refl

  pub handle_find_successor_send-Same :
      (d : Did) (strict : Bool) (t : FindSuccessorThen)
      → Same (handle_find_successor_send env ctx d strict t)
  unfolding handle_find_successor_send
  handle_find_successor_send-Same d strict t = bind-Same _ _ (λ s. refl) (looked_up-Same d strict t)

  pub report_predecessor-Same :
      (o : Option Did) (hop : MessageRelay) → Same (report_predecessor env ctx o hop)
  unfolding report_predecessor
  report_predecessor-Same none hop = λ s. refl
  report_predecessor-Same (some d) hop =
      bind-Same _ _ (λ s. refl)
        λ from.
          if-Same (not (d == from)) _ _ (send_report_message-Same env _ ctx.tx_id hop) (λ s. refl)

  searched-Same : (a : PeerRingAction) → Same (searched env ctx a)
  unfolding searched
  searched-Same nothing = λ s. refl
  searched-Same (some_vnode v) =
      bind-Same _ _ (λ s. refl) (λ hop. send_report_message-Same env _ ctx.tx_id hop)
  searched-Same (remote_action next _) = pass_on-Same next
  searched-Same (some_node _) = λ s. refl
  searched-Same (multi_actions _) = λ s. refl

  pub handle_search_vnode-Same : (vid : Did) → Same (handle_search_vnode env ctx vid)
  unfolding handle_search_vnode
  handle_search_vnode-Same vid = bind-Same _ _ (λ s. refl) searched-Same

  pub operated_for-Same : (a : PeerRingAction) → Same (operated_for env ctx a)
  unfolding operated_for
  operated_for-Same nothing = λ s. refl
  operated_for-Same (remote_action next _) =
      bind-Same _ _ (λ s. refl)
        λ onward.
          bind-Same _ _ (λ s. refl) λ own. bind-Same _ _ (λ s. refl) (forward_payload-Same env ctx)
  operated_for-Same (some_vnode _) = λ s. refl
  operated_for-Same (some_node _) = λ s. refl
  operated_for-Same (multi_actions _) = λ s. refl

  pub handle_custom_message-Same : Same (handle_custom_message env ctx)
  unfolding handle_custom_message
  handle_custom_message-Same =
      bind-Same _ _ (λ s. refl)
        λ own.
          if-Same (not (own == ctx.relay.destination)) _ _
            (bind-Same _ _ (λ s. refl)
              λ found.
                option-Same found _ _ pass_on_to_closest-Same
                  (λ _. pass_on-Same ctx.relay.destination))
            (λ s. refl)
