-- ===== src/Transport/Receive/Examples.antt =====
-- The theorem on a message that is sent and arrives, at a message of one chunk.
use rings_node.Base.{
  ℕ, List, [], ◌∷◌, ◌++◌, ◌≡◌, refl, ap, sym, ◌∙◌, true, Option, none, some, length, arith,
}
use native.Mathlib.Decide.{ℕ_discrete}
use rings_node.Error.{Result, ok, err, encode, ok-inj, err≢ok}
use rings_node.Chunk.{Chunk, ChunkMeta, from_bytes, chunks_of, number}
use rings_node.Act.{bound}
use rings_node.Swarm.{data_channel_message}
use rings_node.Transport.{DataChannel, send_chunk, send_chunks, send_message, transport_mtu}
use rings_node.Transport.Delivery.{IsLogged, Encodes}
use rings_node.Transport.Peer.{DefaultTransport}
use rings_node.Transport.Receive.{Reads, on_messages, message_arrives}

abbrev Log : Type 0
Log = List (List ℕ)

abbrev meta : ChunkMeta
meta = record { id = 7; ts_ms = 10000; ttl_ms = 300000 }

meta_discrete : Discrete ChunkMeta
meta_discrete = hlevel (ℕ_discrete)

-- A coding of the chunks of this message.
abbrev coded : {A : Type 0} → Dec A → List ℕ → Result (List ℕ)
coded (yes _) bytes = ok bytes
coded (no _) bytes = err encode

abbrev to_bincode : Chunk → Result (List ℕ)
to_bincode c = coded (meta_discrete c.meta meta) (c.index ∷ c.total ∷ c.bytes)

abbrev from_bincode : List ℕ → Option Chunk
from_bincode (i ∷ n ∷ bytes) = some (record { index = i; total = n; bytes = bytes; meta = meta })
from_bincode _ = none

coded-yes : {A : Type 0} (d : Dec A) (bytes : List ℕ) → A → coded d bytes ≡ ok bytes
coded-yes (yes _) bytes a = refl
coded-yes (no n) bytes a = absurd (n a)

coded-holds : {A : Type 0} (d : Dec A) (bytes b : List ℕ) → coded d bytes ≡ ok b → A × (bytes ≡ b)
coded-holds (yes a) bytes b e = (a, ok-inj e)
coded-holds (no n) bytes b e = absurd (err≢ok e)

reads : Reads to_bincode from_bincode
reads c b e =
    let (m, q) = coded-holds (meta_discrete c.meta meta) (c.index ∷ c.total ∷ c.bytes) b e in
    ap from_bincode (sym q)
    ∙ ap (λ x. some (record { index = c.index; total = c.total; bytes = c.bytes; meta = x }))
        (sym m)

abbrev channel : DataChannel Log
channel = record {
  get_data_channel = λ w. true;
  is_open = λ w. true;
  send = λ w b. (some (length b), w ++ b ∷ []);
  to_bincode = to_bincode;
}

abbrev whole : Chunk
whole = record { index = 0; total = 1; bytes = 1 ∷ 2 ∷ []; meta = meta }

channel-IsLogged : IsLogged channel (λ w. w)
channel-IsLogged = record { logs = λ w w' bytes n e. sym (ap (λ (x : Option ℕ × Log). x.1) e) }

whole-coded : to_bincode whole ≡ ok (0 ∷ 1 ∷ 1 ∷ 2 ∷ [])
whole-coded = coded-yes (meta_discrete meta meta) (0 ∷ 1 ∷ 1 ∷ 2 ∷ []) refl

send_test : send_message channel meta (1 ∷ 2 ∷ []) [] ≡ (ok tt, (0 ∷ 1 ∷ 1 ∷ 2 ∷ []) ∷ [])
unfolding send_message send_chunks send_chunk bound from_bytes chunks_of number
send_test = rw whole-coded refl

cut_test : from_bytes transport_mtu meta (1 ∷ 2 ∷ []) ≡ ok (whole ∷ [])
unfolding from_bytes chunks_of number
cut_test = refl

abbrev transport : DefaultTransport ℕ ℕ ℕ
transport = record {
  id = 1;
  connection = true;
  pending_candidates = [];
  data_channel = true;
  public_key = some 5;
  chunk_list = [];
  events = data_channel_message (9 ∷ []) ∷ [];
  world = 0;
}

message_arrives_example :
    ((bs : List (List ℕ)) × Encodes channel (whole ∷ []) bs
      × ((0 ∷ 1 ∷ 1 ∷ 2 ∷ []) ∷ [] ≡ [] ++ bs))
    × (on_messages from_bincode ((10500, 0 ∷ 1 ∷ 1 ∷ 2 ∷ []) ∷ []) transport ≡ record transport {
      events = data_channel_message (9 ∷ []) ∷ data_channel_message (1 ∷ 2 ∷ []) ∷ [];
    })
message_arrives_example =
    message_arrives channel (λ w. w) channel-IsLogged from_bincode reads meta (1 ∷ 2 ∷ [])
      (whole ∷ []) (whole ∷ []) [] ((0 ∷ 1 ∷ 1 ∷ 2 ∷ []) ∷ []) ((10500, 0 ∷ 1 ∷ 1 ∷ 2 ∷ []) ∷ [])
      transport (λ e. cc) send_test cut_test (refl, tt) (tt, tt) refl
      (whole-coded, (omega arith, omega arith, omega arith), tt) refl
