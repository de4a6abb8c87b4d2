-- ===== src/Handler/Sound.antt =====
-- Every handler leaves a sound node: its own identifier, well-formed successors, and identifiers in the
-- fingers and for the predecessor.
use rings_node.Base.{◌≡◌, refl, sym, subst, Bool, List, [], ◌∷◌, arith, if◌then◌else◌}
use rings_node.Error.{Result, ok, err, panic}
use rings_node.Did.{Did, IsDid}
use rings_node.Relay.{MessageRelay}
use rings_node.VNode.{VirtualNode, VNodeOperation}
use rings_node.Action.{PeerRingAction, nothing, some_vnode, some_node, remote_action, multi_actions}
use rings_node.Action
use rings_node.Chord.{PeerRing}
use rings_node.Chord.Sound.{
  IsSound, join-IsSound, remove-IsSound, notify-IsSound, update-IsSound, set_fix-IsSound,
}
use rings_node.Chord.Storage.{sync_vnode_with_successor}
use rings_node.Chord.Storage.Sound.{
  vnode_operate-Sound, sync_vnode_with_successor-Sound, local_cache_set-Sound,
}
use rings_node.Message.{
  Message, FindSuccessorReportHandler, no_handler, connect, fix_finger_table, sync_storage,
  custom_callback,
}
use rings_node.Payload.{MessagePayload}
use rings_node.Act.{Act, modify}
use rings_node.Act.Keeps.{Keeps, keeps, after, bind-Keeps, option-Keeps, if-Keeps}
use rings_node.Swarm.{Swarm, Env, set_dht, on_dht, change_dht, ring_outcome, changed}
use rings_node.Swarm.Same.{
  Same, bind-Same, option-Same, close-Same, remove_transport-Same, forward_payload-Same,
}
use rings_node.Swarm.Connect.{disconnect, drop_transport}
use rings_node.Handler.Connection.{at_end, handle_join_dht}
use rings_node.Handler.Lookup.{
  fix_finger, update_successor, connect_to, sync_storage_with, synced, sync_with, reported,
  handle_find_successor_report, handle_notify_predecessor_send, handle_notify_predecessor_report,
}
use rings_node.Handler.Storage.{
  cached, cache_all, fetched, run_operation, storage_fetch, handle_found_vnode,
  handle_operate_vnode,
}
use rings_node.Handler.Passes.{
  operated_for-Same, operated-Same, joined-Same, report_predecessor-Same, sent_to-Same,
  is_stranger-Same, connect_to-Same,
}

abbrev pub Sound : {K Sk S C W : Type 0} → Did → Swarm K Sk S C W → Type 0
Sound own self = IsSound own self.dht

module _ {K Sk S C W : Type 0} (own : Did) where
  pub Same-Sound : {A : Type 0} (m : Act (Swarm K Sk S C W) A) → Same m → Keeps (Sound own) m
  unfolding Keeps
  Same-Sound m h s p = subst (IsSound own) (sym (h s)) p

module _ {K Sk S C W : Type 0} (env : Env K Sk S C W) (own : Did) where
  pub set_dht-Sound :
      (ring : PeerRing S C)
      → IsSound own ring
      → Keeps {St = Swarm K Sk S C W} (Sound own) (modify (set_dht ring))
  unfolding Keeps
  set_dht-Sound ring h s p = h

  on_dht-outcome :
      {A : Type 0} (s : Swarm K Sk S C W) (r : Result (PeerRing S C × A))
      → Sound own s
      → ((q : PeerRing S C × A) → r ≡ ok q → IsSound own q.0)
      → Sound own ((ring_outcome s r).1)
  on_dht-outcome s (ok (ring, a)) p g = g (ring, a) refl
  on_dht-outcome s (err e) p g = p
  on_dht-outcome s panic p g = p

  change_dht-outcome :
      (s : Swarm K Sk S C W) (r : Result (PeerRing S C))
      → Sound own s
      → ((r' : PeerRing S C) → r ≡ ok r' → IsSound own r')
      → Sound own ((changed s r).1)
  change_dht-outcome s (ok ring) p g = g ring refl
  change_dht-outcome s (err e) p g = p
  change_dht-outcome s panic p g = p

  -- A change of the ring that keeps it sound keeps the swarm sound.
  pub on_dht-Sound :
      {A : Type 0} (f : PeerRing S C → Result (PeerRing S C × A))
      → ((r : PeerRing S C) (p : PeerRing S C × A) → IsSound own r → f r ≡ ok p → IsSound own p.0)
      → Keeps {St = Swarm K Sk S C W} (Sound own) (on_dht f)
  unfolding Keeps
  on_dht-Sound f h s p = on_dht-outcome s (f s.dht) p (λ q e. h s.dht q p e)

  pub change_dht-Sound :
      (f : PeerRing S C → Result (PeerRing S C))
      → ((r r' : PeerRing S C) → IsSound own r → f r ≡ ok r' → IsSound own r')
      → Keeps {St = Swarm K Sk S C W} (Sound own) (change_dht f)
  unfolding Keeps
  change_dht-Sound f h s p = change_dht-outcome s (f s.dht) p (λ q e. h s.dht q p e)

module _ {K Sk S C W : Type 0} (env : Env K Sk S C W) (own : Did) where
  drop_transport-Same : (d : Did) → Same (drop_transport env d)
  unfolding drop_transport
  drop_transport-Same d =
      bind-Same _ _ (remove_transport-Same d)
        λ removed. option-Same removed _ _ (λ s. refl) (λ r. close-Same env r.1)

  pub disconnect-Sound : (d : Did) → Keeps (Sound own) (disconnect env d)
  unfolding disconnect
  disconnect-Sound d =
      bind-Keeps (Sound own) _ _
        (change_dht-Sound env own _ (λ r r' w e. remove-IsSound own r w d r' e))
        (λ _. Same-Sound own _ (drop_transport-Same d))

  synced-Sound :
      (r : Result (PeerRing S C × PeerRingAction))
      → ((q : PeerRing S C × PeerRingAction) → r ≡ ok q → IsSound own q.0)
      → Keeps (Sound own) (synced env r)
  unfolding synced
  synced-Sound (ok (ring, remote_action t (Action.sync_vnode_with_successor l))) h =
      bind-Keeps (Sound own) _ _ (set_dht-Sound env own ring (h _ refl))
        (λ _. Same-Sound own _ (sent_to-Same env _ t))
  synced-Sound (ok (ring, remote_action t (Action.find_successor _))) h =
      set_dht-Sound env own ring (h _ refl)
  synced-Sound (ok (ring, remote_action t (Action.find_vnode _))) h =
      set_dht-Sound env own ring (h _ refl)
  synced-Sound (ok (ring, remote_action t (Action.find_vnode_for_operate _))) h =
      set_dht-Sound env own ring (h _ refl)
  synced-Sound (ok (ring, remote_action t (Action.notify _))) h =
      set_dht-Sound env own ring (h _ refl)
  synced-Sound (ok (ring, remote_action t (Action.find_successor_for_connect _))) h =
      set_dht-Sound env own ring (h _ refl)
  synced-Sound (ok (ring, remote_action t (Action.find_successor_for_fix _))) h =
      set_dht-Sound env own ring (h _ refl)
  synced-Sound (ok (ring, remote_action t Action.check_predecessor)) h =
      set_dht-Sound env own ring (h _ refl)
  synced-Sound (ok (ring, nothing)) h = set_dht-Sound env own ring (h _ refl)
  synced-Sound (ok (ring, some_vnode _)) h = set_dht-Sound env own ring (h _ refl)
  synced-Sound (ok (ring, some_node _)) h = set_dht-Sound env own ring (h _ refl)
  synced-Sound (ok (ring, multi_actions _)) h = set_dht-Sound env own ring (h _ refl)
  synced-Sound (err e) h = keeps (Sound own) _ (λ s p. p)
  synced-Sound panic h = keeps (Sound own) _ (λ s p. p)

  update_successor-Sound :
      (d : Did)
      → IsDid d
      → (r r' : PeerRing S C) → IsSound own r
      → update_successor r d ≡ ok r'
      → IsSound own r'
  unfolding update_successor
  update_successor-Sound d i r r' w e = ground (arith, update-IsSound own r w d i)

  fix_finger-Sound :
      (d : Did)
      → IsDid d
      → (r r' : PeerRing S C) → IsSound own r
      → fix_finger r d ≡ ok r'
      → IsSound own r'
  unfolding fix_finger
  fix_finger-Sound d i r r' w e = ground (arith, set_fix-IsSound own r w d i)

  sync_storage_with-Sound : (d : Did) → Keeps (Sound own) (sync_storage_with env d)
  unfolding sync_storage_with
  sync_storage_with-Sound d = keeps (Sound own) _ λ s p.
      after (Sound own) _
        (synced-Sound (sync_vnode_with_successor env.persistence s.dht d)
          (λ q e. sync_vnode_with_successor-Sound own s.dht p env.persistence d q e))
        s p

  sync_with-Sound : (d : Did) → IsDid d → Keeps (Sound own) (sync_with env d)
  unfolding sync_with
  sync_with-Sound d i =
      bind-Keeps (Sound own) _ _ (change_dht-Sound env own _ (update_successor-Sound d i))
        (λ _. sync_storage_with-Sound d)

  pub run_operation-Sound : (op : VNodeOperation) → Keeps (Sound own) (run_operation env op)
  unfolding run_operation
  run_operation-Sound op =
      bind-Keeps (Sound own) _ _
        (on_dht-Sound env own _
          (λ r p w e. vnode_operate-Sound own r w env.persistence env.codec op p e))
        (λ a. Same-Sound own _ (operated-Same env a))

  cached-Sound : (v : VirtualNode) → Keeps (Sound own) (cached env v)
  unfolding Keeps
  cached-Sound v s p = local_cache_set-Sound own s.dht p env.local_cache v

  cache_all-Sound : (l : List VirtualNode) → Keeps (Sound own) (cache_all env l)
  unfolding cache_all
  cache_all-Sound [] = keeps (Sound own) _ (λ s p. p)
  cache_all-Sound (v ∷ l) = bind-Keeps (Sound own) _ _ (cached-Sound v) (λ _. cache_all-Sound l)

  fetched-Sound : (vid : Did) (a : PeerRingAction) → Keeps (Sound own) (fetched env vid a)
  unfolding fetched
  fetched-Sound vid nothing = keeps (Sound own) _ (λ s p. p)
  fetched-Sound vid (some_vnode v) = cached-Sound v
  fetched-Sound vid (remote_action t _) = Same-Sound own _ (sent_to-Same env _ t)
  fetched-Sound vid (some_node _) = keeps (Sound own) _ (λ s p. p)
  fetched-Sound vid (multi_actions _) = keeps (Sound own) _ (λ s p. p)

  pub storage_fetch-Sound : (vid : Did) → Keeps (Sound own) (storage_fetch env vid)
  unfolding storage_fetch
  storage_fetch-Sound vid =
      bind-Keeps (Sound own) _ _ (Same-Sound own _ (λ s. refl)) (fetched-Sound vid)

  connect_or-Sound :
      (d : Did) (b : Bool) (m : Act (Swarm K Sk S C W) (Unit {0}))
      → Keeps (Sound own) m
      → Keeps (Sound own) (if b then connect_to env d else m)
  connect_or-Sound d b m h = if-Keeps (Sound own) b _ _ (Same-Sound own _ (connect_to-Same env d)) h

  reported-Sound :
      (ctx : MessagePayload K Message) (d : Did) (h : FindSuccessorReportHandler)
      → IsDid d
      → Keeps (Sound own) (reported env ctx d h)
  unfolding reported
  reported-Sound ctx d fix_finger_table i = change_dht-Sound env own _ (fix_finger-Sound d i)
  reported-Sound ctx d connect i =
      bind-Keeps (Sound own) _ _ (Same-Sound own _ (is_stranger-Same env d))
        λ b. connect_or-Sound d b _ (keeps (Sound own) _ (λ s p. p))
  reported-Sound ctx d sync_storage i = sync_with-Sound d i
  reported-Sound ctx d no_handler i = keeps (Sound own) _ (λ s p. p)
  reported-Sound ctx d (custom_callback _) i = keeps (Sound own) _ (λ s p. p)

  module _ (ctx : MessagePayload K Message) where
    at_end-Sound :
        (m : Act (Swarm K Sk S C W) (Unit {0})) (hop : MessageRelay)
        → Keeps (Sound own) m
        → Keeps (Sound own) (at_end env ctx m hop)
    at_end-Sound m hop h =
        option-Keeps (Sound own) hop.next_hop _ _ h
          (λ _. Same-Sound own _ (forward_payload-Same env ctx hop))

    pub handle_join_dht-Sound : (d : Did) → IsDid d → Keeps (Sound own) (handle_join_dht env ctx d)
    unfolding handle_join_dht
    handle_join_dht-Sound d i =
        bind-Keeps (Sound own) _ _
          (on_dht-Sound env own _ (λ r p w e. join-IsSound own r w d i p.0 p.1 e))
          (λ a. Same-Sound own _ (joined-Same env ctx a))

    pub handle_find_successor_report-Sound :
        (d : Did) (h : FindSuccessorReportHandler)
        → IsDid d
        → Keeps (Sound own) (handle_find_successor_report env ctx d h)
    unfolding handle_find_successor_report
    handle_find_successor_report-Sound d h i =
        bind-Keeps (Sound own) _ _ (Same-Sound own _ (λ s. refl))
          λ hop. at_end-Sound _ hop (reported-Sound ctx d h i)

    pub handle_notify_predecessor_send-Sound :
        (d : Did) → IsDid d → Keeps (Sound own) (handle_notify_predecessor_send env ctx d)
    unfolding handle_notify_predecessor_send
    handle_notify_predecessor_send-Sound d i =
        bind-Keeps (Sound own) _ _ (Same-Sound own _ (λ s. refl)) λ predecessor.
          bind-Keeps (Sound own) _ _ (Same-Sound own _ (λ s. refl)) λ hop.
            bind-Keeps (Sound own) _ _
              (on_dht-Sound env own _ (λ r p w e. notify-IsSound own r w d i p.0 p.1 e))
              (λ _. Same-Sound own _ (report_predecessor-Same env ctx predecessor hop))

    pub handle_notify_predecessor_report-Sound :
        (d : Did) → IsDid d → Keeps (Sound own) (handle_notify_predecessor_report env ctx d)
    unfolding handle_notify_predecessor_report
    handle_notify_predecessor_report-Sound d i =
        bind-Keeps (Sound own) _ _ (Same-Sound own _ (is_stranger-Same env d))
          λ b. connect_or-Sound d b _ (sync_with-Sound d i)

    pub handle_found_vnode-Sound :
        (l : List VirtualNode) → Keeps (Sound own) (handle_found_vnode env ctx l)
    unfolding handle_found_vnode
    handle_found_vnode-Sound l =
        bind-Keeps (Sound own) _ _ (Same-Sound own _ (λ s. refl))
          λ hop. at_end-Sound _ hop (cache_all-Sound l)

    pub handle_operate_vnode-Sound :
        (op : VNodeOperation) → Keeps (Sound own) (handle_operate_vnode env ctx op)
    unfolding handle_operate_vnode
    handle_operate_vnode-Sound op =
        bind-Keeps (Sound own) _ _
          (on_dht-Sound env own _
            (λ r p w e. vnode_operate-Sound own r w env.persistence env.codec op p e))
          (λ a. Same-Sound own _ (operated_for-Same env ctx a))
