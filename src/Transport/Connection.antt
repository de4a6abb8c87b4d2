-- ===== src/Transport/Connection.antt =====
-- The peer connection of a transport: the calls of the WebRTC library in `DefaultTransport` of
-- rings-core/src/transports/default/transport.rs.
use rings_node.Base.{true, Option, none, some, if◌then◌else◌}
use rings_node.Error.{
  Result, ok, err, rtc_data_channel_not_ready, rtc_peer_connection_create_failed,
  rtc_peer_connection_create_offer_failed, rtc_peer_connection_create_answer_failed,
  rtc_peer_connection_set_local_desc_failed, rtc_peer_connection_set_remote_desc_failed,
  rtc_peer_connection_add_ice_candidate_error, rtc_peer_connection_close_failed,
}
use rings_node.Act.{Act, pure, gets, modify, done, ◌>>=◌}
use rings_node.Swarm.{IceState}
use rings_node.Transport.Peer.{
  Webrtc, DefaultTransport, IceCandidate, call, connected_to, on_ice_candidates, gathered,
}

module _ {K Sdp Candidate W : Type 0} (rt : Webrtc Sdp Candidate W) where
  unfoldable pub set_local_description : Sdp → Act (DefaultTransport K Candidate W) (Unit {0})
  set_local_description desc =
      connected_to (call rtc_peer_connection_set_local_desc_failed λ w. rt.set_local_desc w desc)

  unfoldable pub set_remote_description : Sdp → Act (DefaultTransport K Candidate W) (Unit {0})
  set_remote_description desc =
      connected_to (call rtc_peer_connection_set_remote_desc_failed λ w. rt.set_remote_desc w desc)

  unfoldable pub add_ice_candidate : IceCandidate → Act (DefaultTransport K Candidate W) (Unit {0})
  add_ice_candidate c =
      connected_to (call rtc_peer_connection_add_ice_candidate_error λ w. rt.add_candidate w c)

  -- `gather_complete.recv()`
  unfoldable pub gather_complete : Act (DefaultTransport K Candidate W) (Unit {0})
  unfolding on_ice_candidates
  gather_complete self = gathered self (rt.gather self.world)

  unfoldable pub get_offer : Act (DefaultTransport K Candidate W) Sdp
  unfolding set_local_description gather_complete
  get_offer = connected_to (do
    o ← call rtc_peer_connection_create_offer_failed rt.create_offer
    _ ← set_local_description o
    _ ← gather_complete
    pure o)

  unfoldable pub get_answer : Act (DefaultTransport K Candidate W) Sdp
  unfolding set_local_description gather_complete
  get_answer = connected_to (do
    a ← call rtc_peer_connection_create_answer_failed rt.create_answer
    _ ← set_local_description a
    _ ← gather_complete
    pure a)

  unfoldable pub setup_channel : Act (DefaultTransport K Candidate W) (Unit {0})
  setup_channel = connected_to (do
    _ ← call rtc_data_channel_not_ready rt.create_data_channel
    modify (λ self. record self { data_channel = true }))

  -- `start`, where the configuration is the library's
  unfoldable pub start : Act (DefaultTransport K Candidate W) (Unit {0})
  unfolding setup_channel
  start = do
    _ ← call rtc_peer_connection_create_failed rt.new_peer_connection
    _ ← modify (λ self. record self { connection = true })
    setup_channel

  unfoldable pub close : Act (DefaultTransport K Candidate W) (Unit {0})
  close = do
    pc ← gets (λ self. self.connection)
    if pc then call rtc_peer_connection_close_failed rt.close_connection else done

  unfoldable pub ice_connection_state : DefaultTransport K Candidate W → Option IceState
  ice_connection_state self =
      if self.connection then some (rt.connection_state self.world) else none

  abbrev pub waited :
      DefaultTransport K Candidate W
      → Result (Unit {0}) × W
      → Result (Unit {0}) × DefaultTransport K Candidate W
  waited self (r, w) = (r, record self { world = w })

  unfoldable pub wait_for_data_channel_open : Act (DefaultTransport K Candidate W) (Unit {0})
  wait_for_data_channel_open self =
      if self.data_channel
      then (if rt.is_open self.world then (ok tt, self) else waited self (rt.wait_open self.world))
      else (err rtc_data_channel_not_ready, self)
