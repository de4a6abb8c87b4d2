-- ===== src/Transport/Examples.antt =====
-- Sending at a channel that keeps a log and takes all the bytes, and the theorem on sending at one that takes none.
use rings_node.Base.{
  ℕ, ◌^◌, subst, ◌<◌, ◌≡◌, ◌≢◌, refl, true, Option, some, List, [], ◌∷◌, ◌++◌, arith, length,
}
use rings_node.Error.{Error, Result, ok, err, rtc_data_channel_message_incomplete}
use rings_node.Chunk.{Chunk, ChunkMeta, from_bytes, chunks_of, number}
use rings_node.Act.{bound}
use rings_node.Transport.{DataChannel, send_chunk, send_chunks, send_message}
use rings_node.Transport.Unnoticed.{IsChannel, incomplete_unnoticed}

abbrev Log : Type 0
Log = List (List ℕ)

-- A code that forgets the metadata but not the bytes' place.
abbrev code : Chunk → Result (List ℕ)
code c = ok (c.index ∷ c.total ∷ [])

abbrev fast : DataChannel Log
fast = record {
  get_data_channel = λ w. true;
  is_open = λ w. true;
  send = λ w b. (some (length b), w ++ b ∷ []);
  to_bincode = code;
}

abbrev stuck : DataChannel Log
stuck = record {
  get_data_channel = λ w. true;
  is_open = λ w. true;
  send = λ w b. (some 0, w);
  to_bincode = code;
}

abbrev meta : ChunkMeta
meta = record { id = 7; ts_ms = 10000; ttl_ms = 300000 }

some-inj : {a b : ℕ} → ◌≡◌ {A = Option ℕ} (some a) (some b) → a ≡ b
some-inj e = cc

ok-inj : {a b : List ℕ} → ◌≡◌ {A = Result (List ℕ)} (ok a) (ok b) → a ≡ b
ok-inj e = cc

ok≢err : {a : List ℕ} {x : Error} → ◌≢◌ {A = Result (List ℕ)} (ok a) (err x)
ok≢err e = cc

stuck-IsChannel : IsChannel stuck
stuck-IsChannel = record {
  takes = λ w bytes n e. let q = some-inj e in omega arith;
  narrow = λ c bytes e. subst (λ l. length l < 2 ^ 63) (ok-inj e) (omega arith);
  coding = λ c e. ok≢err e;
}

send_message_test : send_message fast meta (1 ∷ 2 ∷ []) [] ≡ (ok tt, (0 ∷ 1 ∷ []) ∷ [])
unfolding send_message send_chunks send_chunk bound from_bytes chunks_of number
send_message_test = refl

incomplete_unnoticed_example :
    (send_message stuck meta (1 ∷ 2 ∷ []) []).0 ≢ err rtc_data_channel_message_incomplete
incomplete_unnoticed_example = incomplete_unnoticed stuck meta (1 ∷ 2 ∷ []) [] stuck-IsChannel
