-- ===== src/Transport.antt =====
-- `send_message` of rings-core/src/transports/default/transport.rs: a message goes out in chunks over the data
-- channel. The channel of the WebRTC library and bincode are the record `DataChannel` over any type of states, a
-- parameter. A `usize` has 64 bits.
pub mod Unnoticed
pub mod Delivery
pub mod Peer
pub mod Connection
pub mod Handshake
pub mod Receive
pub mod Accepts
pub mod Shakes
mod Examples
use rings_node.Base.{
  ℕ, ◌-◌, ◌*◌, ◌^◌, Bool, true, false, not, Option, none, some, List, [], ◌∷◌, length, ltb, ◌==◌,
  if◌then◌else◌,
}
use rings_node.Error.{
  Error, Result, ok, err, panic, message_too_large, rtc_data_channel_not_ready,
  rtc_data_channel_state_not_open, rtc_data_channel_send_text_failed,
  rtc_data_channel_message_incomplete,
}
use rings_node.Chunk.{Chunk, ChunkMeta, from_bytes}
use rings_node.Act.{Act, raise, lift, gets, done, ◌>>=◌}

-- `TRANSPORT_MTU` and `TRANSPORT_MAX_SIZE` of rings-core/src/consts.rs
abbrev pub transport_mtu : ℕ
transport_mtu = 60000

abbrev pub transport_max_size : ℕ
transport_max_size = transport_mtu * 16

-- `send` gives the number of bytes it took, or fails; `get_data_channel` says whether there is a channel.
pub record DataChannel (W : Type 0) : Type 0 where
  pub get_data_channel : W → Bool
  pub is_open : W → Bool
  pub send : W → List ℕ → Option ℕ × W
  pub to_bincode : Chunk → Result (List ℕ)

-- `!s`
abbrev pub complement : ℕ → ℕ
complement s = 2 ^ 64 - 1 - s

module _ {W : Type 0} (dc : DataChannel W) where
  -- The match on the outcome of `dc.send(&bytes)`; `size` is the number of bytes.
  abbrev pub sent : ℕ → Option ℕ × W → Result (Unit {0}) × W
  sent size (some s, w) =
      if complement s == size then (err rtc_data_channel_message_incomplete, w) else (ok tt, w)
  sent size (none, w) =
      if not (dc.is_open w)
      then (err rtc_data_channel_state_not_open, w)
      else (err rtc_data_channel_send_text_failed, w)

  unfoldable pub send_chunk : Chunk → Act W (Unit {0})
  send_chunk c = do bytes ← lift (dc.to_bincode c); λ w. sent (length bytes) (dc.send w bytes)

  unfoldable pub send_chunks : List Chunk → Act W (Unit {0})
  unfolding send_chunk
  send_chunks [] = done
  send_chunks (c ∷ chunks) = do _ ← send_chunk c; send_chunks chunks

  -- With the metadata that `ChunkMeta::default` gives.
  unfoldable pub send_message : ChunkMeta → List ℕ → Act W (Unit {0})
  unfolding send_chunks
  send_message meta msg =
      if ltb transport_max_size (length msg) then raise message_too_large else (do
        ready ← gets dc.get_data_channel
        if not ready
            then raise rtc_data_channel_not_ready
            else (do chunks ← lift (from_bytes transport_mtu meta msg); send_chunks chunks))
