-- ===== src/Transport/Peer.antt =====
-- `DefaultTransport` of rings-core/src/transports/default/transport.rs: its state, and what the callbacks do. The
-- WebRTC library and the JSON of its types are the record `Webrtc`, a parameter. The callbacks run as steps on the
-- state of the transport, those that gather candidates while `gathering_complete_promise` is awaited; `events`
-- are those that `event_sender` took, in order.
use rings_node.Base.{ℕ, Bool, false, Option, none, some, List, [], ◌∷◌, ◌++◌, String, if◌then◌else◌}
use rings_node.Error.{Error, Result, ok, err, panic, rtc_peer_connection_not_establish}
use rings_node.Did.{Did}
use rings_node.Chunk.{Chunk, handle}
use rings_node.Session.{ok_or}
use rings_node.Act.{Act, raise, gets, modify, done, ◌>>=◌}
use rings_node.Swarm.{
  Event, data_channel_message, register_transport, connect_closed, IceState, state_new, checking,
  connected, completed, disconnected, failed, closed,
}

-- `IceCandidate` of rings-core/src/types/ice_transport/mod.rs
pub record IceCandidate : Type 0 where
  pub candidate : String
  pub sdp_mid : Option String
  pub sdp_m_line_index : Option ℕ
  pub username_fragment : Option String

-- `none` is an error of the library; `gather` gives the candidates that it finds until its gathering is complete;
-- `wait_open` is the promise that the channel opens.
pub record Webrtc (Sdp Candidate W : Type 0) : Type 0 where
  pub new_peer_connection : W → Option (Unit {0}) × W
  pub create_data_channel : W → Option (Unit {0}) × W
  pub create_offer : W → Option Sdp × W
  pub create_answer : W → Option Sdp × W
  pub set_local_desc : W → Sdp → Option (Unit {0}) × W
  pub set_remote_desc : W → Sdp → Option (Unit {0}) × W
  pub add_candidate : W → IceCandidate → Option (Unit {0}) × W
  pub gather : W → List Candidate × W
  pub close_connection : W → Option (Unit {0}) × W
  pub connection_state : W → IceState
  pub is_open : W → Bool
  pub wait_open : W → Result (Unit {0}) × W
  pub candidate_to_json : Candidate → Option IceCandidate
  pub sdp_to_json : Sdp → Option String
  pub sdp_from_json : String → Option Sdp

-- `connection` and `data_channel` are whether there is one; `chunk_list` is the pool.
pub record DefaultTransport (K Candidate W : Type 0) : Type 0 where
  pub id : ℕ
  pub connection : Bool
  pub pending_candidates : List Candidate
  pub data_channel : Bool
  pub public_key : Option K
  pub chunk_list : List Chunk
  pub events : List Event
  pub world : W

module _ {K Candidate W : Type 0} where
  -- `DefaultTransport::new`
  unfoldable pub new : ℕ → W → DefaultTransport K Candidate W
  new id world = record {
    id = id;
    connection = false;
    pending_candidates = [];
    data_channel = false;
    public_key = none;
    chunk_list = [];
    events = [];
    world = world;
  }

  -- A call of the library, and the error that its failure becomes.
  abbrev pub returned :
      {A : Type 0}
      → Error
      → DefaultTransport K Candidate W
      → Option A × W
      → Result A × DefaultTransport K Candidate W
  returned e self (some a, w) = (ok a, record self { world = w })
  returned e self (none, w) = (err e, record self { world = w })

  abbrev pub call :
      {A : Type 0} → Error → (W → Option A × W) → Act (DefaultTransport K Candidate W) A
  call e f self = returned e self (f self.world)

  -- The match on `get_peer_connection`.
  abbrev pub connected_to :
      {A : Type 0} → Act (DefaultTransport K Candidate W) A → Act (DefaultTransport K Candidate W) A
  connected_to m self =
      if self.connection then m self else raise rtc_peer_connection_not_establish self

  abbrev pub send_event : Event → Act (DefaultTransport K Candidate W) (Unit {0})
  send_event e = modify (λ self. record self { events = self.events ++ e ∷ [] })

  -- `public_key.unwrap()`
  unfoldable pub pubkey : Act (DefaultTransport K Candidate W) K
  pubkey self = (ok_or self.public_key panic, self)

  -- `on_ice_candidate`
  unfoldable pub on_ice_candidate :
      Option Candidate → Act (DefaultTransport K Candidate W) (Unit {0})
  on_ice_candidate none = done
  on_ice_candidate (some c) = modify (λ self.
      if self.connection
      then record self { pending_candidates = self.pending_candidates ++ c ∷ [] }
      else self)

  unfoldable pub on_ice_candidates :
      List Candidate → Act (DefaultTransport K Candidate W) (Unit {0})
  unfolding on_ice_candidate
  on_ice_candidates [] = done
  on_ice_candidates (c ∷ l) = do _ ← on_ice_candidate (some c); on_ice_candidates l

  abbrev pub gathered :
      DefaultTransport K Candidate W
      → List Candidate × W
      → Result (Unit {0}) × DefaultTransport K Candidate W
  gathered self (l, w) = on_ice_candidates l (record self { world = w })

  -- `on_ice_connection_state_change`, with `PublicKey::address`
  unfoldable pub on_ice_connection_state_change :
      (K → Did) → IceState → Act (DefaultTransport K Candidate W) (Unit {0})
  unfolding pubkey
  on_ice_connection_state_change address connected = do
    key ← pubkey
    id ← gets (λ self. self.id)
    send_event (register_transport (address key) id)
  on_ice_connection_state_change address failed = do
    key ← pubkey
    id ← gets (λ self. self.id)
    send_event (connect_closed (address key) id)
  on_ice_connection_state_change address disconnected = do
    key ← pubkey
    id ← gets (λ self. self.id)
    send_event (connect_closed (address key) id)
  on_ice_connection_state_change address closed = do
    key ← pubkey
    id ← gets (λ self. self.id)
    send_event (connect_closed (address key) id)
  on_ice_connection_state_change address state_new = done
  on_ice_connection_state_change address checking = done
  on_ice_connection_state_change address completed = done

  -- What `handle` leaves and gives.
  abbrev pub delivered :
      DefaultTransport K Candidate W → List Chunk × Option (List ℕ) → DefaultTransport K Candidate W
  delivered self (pool, none) = record self { chunk_list = pool }
  delivered self (pool, some bytes) = record self {
    chunk_list = pool;
    events = self.events ++ data_channel_message bytes ∷ [];
  }

  -- `on_message` of a data channel, with `Chunk::from_bincode` and the time
  unfoldable pub on_message :
      (List ℕ → Option Chunk)
      → ℕ
      → List ℕ
      → DefaultTransport K Candidate W
      → DefaultTransport K Candidate W
  on_message chunk_from_bincode now msg self = elim (chunk_from_bincode msg) [
    | none ↦ self
    | some chunk_item ↦ delivered self (handle now self.chunk_list chunk_item)
  ]
