-- ===== src/Swarm.antt =====
-- The state of `Swarm` in rings-core/src/swarm.rs, and what its methods call in code that is not modelled:
-- the WebRTC transports, the clock, the random identifiers and bincode are the record `Rtc` over any type
-- of states `W`, a parameter. A `Transport` behind an `Arc` is its identifier. The ICE servers and the
-- external address, which only starting a transport reads, are part of that state.
pub mod Builder
pub mod Transports
pub mod Pending
pub mod Send
pub mod Events
pub mod Connect
pub mod Same
mod Examples
use rings_node.Base.{ℕ, Bool, Option, List, String}
use rings_node.Error.{Result, ok, err, panic}
use rings_node.Did.{Did}
use rings_node.Chord.{PeerRing}
use rings_node.Chord.Storage.{Persistence, Cache}
use rings_node.VNode.{Codec}
use rings_node.Session.{Signers}
use rings_node.Session.Manager.{SessionManager, KeySigner}
use rings_node.Message.{Message}
use rings_node.Message.Cipher.{Cipher}
use rings_node.Payload.{MessagePayload}
use rings_node.Act.{Act}

-- `RTCIceConnectionState`
pub data IceState : Type 0 where
  state_new checking connected completed disconnected failed closed : IceState

-- `RTCSdpType`, as far as the code asks for it.
pub data SdpType : Type 0 where
  offer answer : SdpType

-- `MeasureCounter` of rings-core/src/measure.rs
pub data MeasureCounter : Type 0 where
  sent failed_to_send received failed_to_receive : MeasureCounter

-- `Event` of rings-core/src/types/channel.rs
pub data Event : Type 0 where
  data_channel_message : List ℕ → Event
  register_transport connect_closed : Did → ℕ → Event

pub record Rtc (K Sk W : Type 0) : Type 0 where
  pub now : W → ℕ
  pub new_uuid : W → ℕ × W
  -- `Transport::new`, `start` and `apply_callback`
  pub start : W → Result ℕ × W
  -- `none` where there is no peer connection.
  pub ice_connection_state : W → ℕ → Option IceState
  pub close_connection : W → ℕ → Result (Unit {0}) × W
  pub register_remote_info : W → ℕ → String → Result Did × W
  pub get_handshake_info : W → ℕ → SessionManager K Sk → SdpType → Result String × W
  pub wait_for_data_channel_open : W → ℕ → Result (Unit {0}) × W
  pub send_bytes : W → ℕ → List ℕ → Result (Unit {0}) × W
  pub to_bincode : MessagePayload K Message → Result (List ℕ)
  pub from_bincode : List ℕ → Result (MessagePayload K Message)
  pub uuid_to_string : ℕ → String
  pub uuid_from_str : String → Option ℕ
  pub incr : W → Did → MeasureCounter → W

-- All the parameters.
pub record Env (K Sk S C W : Type 0) : Type 0 where
  pub signers : Signers K Message
  pub key_signer : KeySigner K Sk
  pub persistence : Persistence S
  pub local_cache : Cache C
  pub codec : Codec
  pub cipher : Cipher K Sk (List ℕ)
  pub rtc : Rtc K Sk W

-- `pending_held`: someone else holds the mutex of the pending transports, so that `try_lock` fails.
pub record Swarm (K Sk S C W : Type 0) : Type 0 where
  pub pending : List ℕ
  pub pending_held : Bool
  pub transports : List (Did × ℕ)
  pub dht : PeerRing S C
  pub measured : Bool
  pub session_manager : SessionManager K Sk
  pub world : W

module _ {K Sk S C W : Type 0} where
  abbrev pub did : Swarm K Sk S C W → Did
  did self = self.dht.did

  abbrev pub set_dht : PeerRing S C → Swarm K Sk S C W → Swarm K Sk S C W
  set_dht ring self = record self { dht = ring }

  -- A call into the transports.
  abbrev called : {A : Type 0} → Swarm K Sk S C W → Result A × W → Result A × Swarm K Sk S C W
  called self (r, w) = (r, record self { world = w })

  abbrev pub call : {A : Type 0} → (W → Result A × W) → Act (Swarm K Sk S C W) A
  call f self = called self (f self.world)

  abbrev pub made :
      {A : Type 0} → Swarm K Sk S C W → (ℕ → Result A) → ℕ × W → Result A × Swarm K Sk S C W
  made self f (id, w) = (f id, record self { world = w })

  -- What is made from the state, the time and a new random identifier.
  abbrev pub fresh :
      {A : Type 0} → Rtc K Sk W → (Swarm K Sk S C W → ℕ → ℕ → Result A) → Act (Swarm K Sk S C W) A
  fresh rtc f self = made self (f self (rtc.now self.world)) (rtc.new_uuid self.world)

  abbrev pub ring_outcome :
      {A : Type 0} → Swarm K Sk S C W → Result (PeerRing S C × A) → Result A × Swarm K Sk S C W
  ring_outcome self (ok (ring, a)) = (ok a, set_dht ring self)
  ring_outcome self (err e) = (err e, self)
  ring_outcome self panic = (panic, self)

  -- A method of the ring that changes it, and one that reads it.
  abbrev pub on_dht :
      {A : Type 0} → (PeerRing S C → Result (PeerRing S C × A)) → Act (Swarm K Sk S C W) A
  on_dht f self = ring_outcome self (f self.dht)

  abbrev pub ask_dht : {A : Type 0} → (PeerRing S C → Result A) → Act (Swarm K Sk S C W) A
  ask_dht f self = (f self.dht, self)

  abbrev pub changed :
      Swarm K Sk S C W → Result (PeerRing S C) → Result (Unit {0}) × Swarm K Sk S C W
  changed self (ok ring) = (ok tt, set_dht ring self)
  changed self (err e) = (err e, self)
  changed self panic = (panic, self)

  abbrev pub change_dht : (PeerRing S C → Result (PeerRing S C)) → Act (Swarm K Sk S C W) (Unit {0})
  change_dht f self = changed self (f self.dht)
