-- ===== src/Swarm/Connect.antt =====
-- `connect` and `disconnect` of rings-core/src/swarm.rs.
use rings_node.Base.{ℕ, none, some}
use rings_node.Did.{Did}
use rings_node.Chord.{remove}
use rings_node.Message.{connect_node_send}
use rings_node.Act.{Act, pure, done, ◌>>=◌}
use rings_node.Swarm.{Swarm, Env, offer, call, change_dht}
use rings_node.Swarm.Transports.{get_and_check_transport, new_transport, remove_transport, close}
use rings_node.Swarm.Pending.{push_pending_transport}
use rings_node.Swarm.Send.{send_message}

module _ {K Sk S C W : Type 0} (env : Env K Sk S C W) where
  -- The rest of `disconnect`, after the ring has forgotten the node.
  unfoldable pub drop_transport : Did → Act (Swarm K Sk S C W) (Unit {0})
  drop_transport did = do
    removed ← remove_transport did
    elim removed [ none ↦ done | some (_, trans) ↦ close env trans ]

  unfoldable pub disconnect : Did → Act (Swarm K Sk S C W) (Unit {0})
  unfolding drop_transport
  disconnect did = do _ ← change_dht (λ ring. remove ring did); drop_transport did

  -- The connection that `connect` opens.
  unfoldable pub open_connection : Did → Act (Swarm K Sk S C W) ℕ
  open_connection did = do
    transport ← new_transport env
    handshake_info ←
        λ self. call (λ w. env.rtc.get_handshake_info w transport self.session_manager offer) self
    _ ← push_pending_transport transport
    _ ← send_message env (connect_node_send (env.rtc.uuid_to_string transport) handshake_info) did
    pure transport

  unfoldable pub connect : Did → Act (Swarm K Sk S C W) ℕ
  unfolding open_connection
  connect did = do
    found ← get_and_check_transport env did
    elim found [ some t ↦ pure t | none ↦ open_connection did ]
