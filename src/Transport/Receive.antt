-- ===== src/Transport/Receive.antt =====
-- A message that was sent arrives: what `send_message` puts on the channel of one transport makes the other one tell
-- of the message once, when its last chunk has come.
mod Examples
use rings_node.Base.{
  ℕ, zero, suc, ◌+◌, ◌%◌, ◌^◌, ◌<◌, ◌≡◌, ◌≢◌, refl, ap, sym, ◌∙◌, subst, inl, inr, Bool, true,
  false, none, some, Option, List, [], ◌∷◌, ◌++◌, arith, length, length-append, ◌==◌, Bool-cases,
  All, All-append, Distinct, if◌then◌else◌,
}
use mathlib.Core.List.{append_assoc, append-nil}
use rings_node.Error.{Result, ok, err, panic, panic≢ok, ok-inj}
use rings_node.Chunk.{Chunk, ChunkMeta, chunks_of, number, from_bytes, is_full, concat, handle}
use rings_node.Chunk.Split.{IsPart, concat-number, length-number, number-index, number-meta}
use rings_node.Chunk.Order.{is_full-number, chunks_of-ne}
use rings_node.Chunk.Arrival.{InTime, Parts, handle-short, handle-whole}
use rings_node.Swarm.{data_channel_message}
use rings_node.Transport.{DataChannel, send_message, transport_mtu}
use rings_node.Transport.Delivery.{IsLogged, Encodes, send_message_delivers}
use rings_node.Transport.Peer.{DefaultTransport, delivered, on_message}

-- The messages that come, each with its time.
unfoldable pub on_messages :
    {K Candidate W : Type 0}
    → (List ℕ → Option Chunk)
    → List (ℕ × List ℕ)
    → DefaultTransport K Candidate W
    → DefaultTransport K Candidate W
on_messages decode [] self = self
on_messages decode ((now, bytes) ∷ l) self = on_messages decode l (on_message decode now bytes self)

-- They are codes of these chunks, which come in time.
abbrev pub Arrive : (Chunk → Result (List ℕ)) → ChunkMeta → List (ℕ × List ℕ) → List Chunk → Type 0
Arrive encode meta [] [] = Unit
Arrive encode meta ((now, bytes) ∷ l) (c ∷ cs) =
    (encode c ≡ ok bytes) × InTime meta now × Arrive encode meta l cs
Arrive encode meta _ _ = ⊥

-- `Chunk::from_bincode` reads what `to_bincode` wrote.
abbrev pub Reads : (Chunk → Result (List ℕ)) → (List ℕ → Option Chunk) → Type 0
Reads encode decode = (c : Chunk) (bytes : List ℕ) → encode c ≡ ok bytes → decode bytes ≡ some c

All-first : {A : Type 0} (P : A → Type 0) (xs ys : List A) → All P (xs ++ ys) → All P xs
All-first P [] ys h = tt
All-first P (x ∷ xs) ys h = (h.0, All-first P xs ys h.1)

All-mid : {A : Type 0} (P : A → Type 0) (xs ys : List A) (y : A) → All P (xs ++ y ∷ ys) → P y
All-mid P [] ys y h = h.0
All-mid P (x ∷ xs) ys y h = All-mid P xs ys y h.1

Distinct-first : {A : Type 0} (xs ys : List A) → Distinct (xs ++ ys) → Distinct xs
Distinct-first [] ys d = tt
Distinct-first (x ∷ xs) ys d = (All-first (λ y. x ≢ y) xs ys d.0, Distinct-first xs ys d.1)

length-zero : {A : Type 0} (xs : List A) → length xs ≡ 0 → xs ≡ []
length-zero [] e = refl
length-zero (x ∷ xs) e = absurd (omega (arith, e))

number-ne :
    (meta : ChunkMeta) (msg : List ℕ)
    → msg ≢ []
    → number meta
        (length (chunks_of (length msg) transport_mtu msg))
        0
        (chunks_of (length msg) transport_mtu msg)
      ≢ []
unfolding number
number-ne meta msg ne e =
    let ds = chunks_of (length msg) transport_mtu msg in
    chunks_of-ne (length msg) transport_mtu msg ne (omega arith)
      (length-zero ds (sym (length-number meta (length ds) 0 ds) ∙ ap length e))

on_message-delivered :
    {K Candidate W : Type 0} (decode : List ℕ → Option Chunk) (now : ℕ) (b : List ℕ) (c : Chunk)
    (self : DefaultTransport K Candidate W) (r : List Chunk × Option (List ℕ))
    → decode b ≡ some c
    → handle now self.chunk_list c ≡ r
    → on_message decode now b self ≡ delivered self r
unfolding on_message
on_message-delivered decode now b c self r q e = rw (q, on_message) (ap (delivered self) e)

module _ (split : List Chunk) (meta : ChunkMeta)
    (of_split : (c : Chunk) → IsPart split c → (c.total ≡ length split) × (c.meta ≡ meta))
    (full : is_full split ≡ true) (encode : Chunk → Result (List ℕ))
    (decode : List ℕ → Option Chunk) (reads : Reads encode decode) where
  Arrive-rest :
      {K Candidate W : Type 0} (l : List (ℕ × List ℕ)) (c : Chunk) (cs : List Chunk)
      (self : DefaultTransport K Candidate W)
      → Arrive encode meta l (c ∷ cs)
      → Parts split meta of_split (self.chunk_list ++ c ∷ cs)
      → length (self.chunk_list ++ c ∷ cs) ≡ length split
      → on_messages decode l self ≡ record self {
        chunk_list = [];
        events = self.events ++ data_channel_message (concat split) ∷ [];
      }
  unfolding on_messages
  Arrive-rest ((now, b) ∷ []) c [] self (q, t, _) p n =
      on_message-delivered decode now b c self _ (reads c b q) (
        handle-whole split meta of_split now self.chunk_list c t p
          (All-mid (IsPart split) self.chunk_list [] c p.0) n full)
  Arrive-rest ((now, b) ∷ l) c (d ∷ cs) self (q, t, a) p n =
      let pool = self.chunk_list in
      let again : (pool ++ c ∷ []) ++ d ∷ cs ≡ pool ++ c ∷ d ∷ cs =
        append_assoc pool (c ∷ []) (d ∷ cs) in
      let whole = subst (Parts split meta of_split) (sym again) p in
      let some_of : Parts split meta of_split (pool ++ c ∷ []) = (
        All-first (IsPart split) (pool ++ c ∷ []) (d ∷ cs) whole.0,
        Distinct-first (pool ++ c ∷ []) (d ∷ cs) whole.1,
      ) in
      let fewer : length (pool ++ c ∷ []) < length split =
        omega (arith, n, length-append (pool ++ c ∷ []) (d ∷ cs), ap length again) in
      let step = on_message-delivered decode now b c self _ (reads c b q) (
        handle-short split meta of_split now pool c t some_of
          (All-mid (IsPart split) pool (d ∷ cs) c p.0) fewer) in
      ap (on_messages decode l) step
      ∙ Arrive-rest l d cs (record self { chunk_list = pool ++ c ∷ [] }) a whole
          (ap length again ∙ n)
  Arrive-rest [] c cs self a p n = absurd a
  Arrive-rest ((now, b) ∷ m ∷ l) c [] self (q, t, a) p n = absurd a

  Arrive-all :
      {K Candidate W : Type 0} (l : List (ℕ × List ℕ)) (cs : List Chunk)
      (self : DefaultTransport K Candidate W)
      → split ≢ []
      → Arrive encode meta l cs
      → Parts split meta of_split cs
      → length cs ≡ length split
      → self.chunk_list ≡ []
      → on_messages decode l self ≡ record self {
        chunk_list = [];
        events = self.events ++ data_channel_message (concat split) ∷ [];
      }
  Arrive-all l [] self ne a p n empty = absurd (ne (length-zero split (sym n)))
  Arrive-all l (c ∷ cs) self ne a p n empty =
      Arrive-rest l c cs self a
        (subst (λ pool. Parts split meta of_split (pool ++ c ∷ cs)) (sym empty) p)
        (ap (λ pool. length (pool ++ c ∷ cs)) empty ∙ n)

-- The parts of a message that is cut.
number-parts :
    (meta : ChunkMeta) (ds : List (List ℕ)) (c : Chunk)
    → IsPart (number meta (length ds) 0 ds) c
    → (c.total ≡ length (number meta (length ds) 0 ds)) × (c.meta ≡ meta)
number-parts meta ds c q = (
  (number-index meta (length ds) 0 ds c.index c q).1 ∙ sym (length-number meta (length ds) 0 ds),
  number-meta meta (length ds) 0 ds c.index c q,
)

cut-number :
    (mtu : ℕ) (meta : ChunkMeta) (msg : List ℕ) (split : List Chunk)
    → from_bytes mtu meta msg ≡ ok split
    → (0 < mtu)
      × (split
          ≡ number meta
              (length (chunks_of (length msg) mtu msg))
              0
              (chunks_of (length msg) mtu msg))
unfolding from_bytes
cut-number mtu meta msg split e = elim (Bool-cases (mtu == 0)) [
  | inl z ↦ absurd (panic≢ok (rw z at e))
  | inr z ↦ (ground (arith, z), sym (ok-inj (rw z at e)))
]

module _ {K Candidate W V : Type 0} (dc : DataChannel V) (taken : V → List (List ℕ))
    (log : IsLogged dc taken) (decode : List ℕ → Option Chunk)
    (reads : Reads dc.to_bincode decode) where
  -- Over a channel that logs what it took and a coding of chunks that is read back: where `send_message` succeeds on a
  -- message that is not empty, the channel took the codes of the message's chunks and nothing else. And a transport
  -- with an empty pool to which the codes of these chunks come, each once, in whatever order, within the lifetime of the
  -- message, has told in the end of that message, exactly once, and of nothing else, and its pool is empty again.
  pub message_arrives :
      (meta : ChunkMeta) (msg : List ℕ) (chunks cs : List Chunk) (w w' : V) (l : List (ℕ × List ℕ))
      (self : DefaultTransport K Candidate W)
      → msg ≢ []
      → send_message dc meta msg w ≡ (ok tt, w')
      → from_bytes transport_mtu meta msg ≡ ok chunks
      → All (IsPart chunks) cs
      → Distinct cs
      → length cs ≡ length chunks
      → Arrive dc.to_bincode meta l cs
      → self.chunk_list ≡ []
      → ((bs : List (List ℕ)) × Encodes dc chunks bs × (taken w' ≡ taken w ++ bs))
        × (on_messages decode l self ≡ record self {
          chunk_list = [];
          events = self.events ++ data_channel_message msg ∷ [];
        })
  message_arrives meta msg chunks cs w w' l self ne e cut ps d n a empty =
      let ds = chunks_of (length msg) transport_mtu msg in
      let split = number meta (length ds) 0 ds in
      let (pos, same) = cut-number transport_mtu meta msg chunks cut in
      let ps' : All (IsPart split) cs = subst (λ x. All (IsPart x) cs) same ps in
      (
        (send_message_delivers dc taken log meta msg chunks cs w w' ne e cut ps d n).0,
        Arrive-all split meta (number-parts meta ds)
              (is_full-number meta ds
                (chunks_of-ne (length msg) transport_mtu msg ne (omega arith)))
              dc.to_bincode decode reads l cs self (number-ne meta msg ne) a (ps', d)
              (n ∙ ap length same) empty
            ∙ ap
                (λ m. record self {
                  chunk_list = [];
                  events = self.events ++ data_channel_message m ∷ [];
                })
                (concat-number (length msg) transport_mtu meta (length ds) 0 msg pos (omega arith)),
      )
