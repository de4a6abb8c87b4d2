-- ===== src/Transport/Unnoticed.antt =====
-- What the test for an incomplete send makes of one.
use rings_node.Base.{
  ℕ, ◌^◌, ◌≤◌, ◌<◌, ◌≡◌, ◌≢◌, refl, ap, ◌∙◌, inl, inr, false, Option, none, some, List, [], ◌∷◌,
  arith, length, ltb, ◌==◌, Bool-cases,
}
use rings_node.Error.{
  Error, Result, ok, err, panic, Result-cases, rtc_data_channel_message_incomplete,
  message_too_large, rtc_data_channel_not_ready,
}
use rings_node.Chunk.{Chunk, ChunkMeta, from_bytes}
use rings_node.Act.{Act, bound}
use rings_node.Transport.{
  DataChannel, complement, sent, send_chunk, send_chunks, send_message, transport_max_size,
}

-- The channel takes at most what it is given, and no chunk has 2 ^ 63 bytes or more; coding does not fail with
-- the error in question.
pub record IsChannel {W : Type 0} (dc : DataChannel W) : Type 0 where
  pub takes : (w : W) (bytes : List ℕ) (n : ℕ) → (dc.send w bytes).0 ≡ some n → n ≤ length bytes
  pub narrow : (c : Chunk) (bytes : List ℕ) → dc.to_bincode c ≡ ok bytes → length bytes < 2 ^ 63
  pub coding : (c : Chunk) → dc.to_bincode c ≢ err rtc_data_channel_message_incomplete

abbrev Complains : {W A : Type 0} → Result A × W → Type 0
Complains r = r.0 ≡ err rtc_data_channel_message_incomplete

err-inj : {A : Type 0} {x y : Error} → ◌≡◌ {A = Result A} (err x) (err y) → x ≡ y
err-inj e = cc

ok≢err : {A : Type 0} {a : A} {x : Error} → ◌≢◌ {A = Result A} (ok a) (err x)
ok≢err e = cc

panic≢err : {A : Type 0} {x : Error} → ◌≢◌ {A = Result A} panic (err x)
panic≢err e = cc

large≢incomplete : message_too_large ≢ rtc_data_channel_message_incomplete
large≢incomplete e = cc

ready≢incomplete : rtc_data_channel_not_ready ≢ rtc_data_channel_message_incomplete
ready≢incomplete e = cc

unequal : (n size : ℕ) → n ≤ size → size < 2 ^ 63 → (complement n == size) ≡ false
unequal n size l h = ground arith

module _ {W : Type 0} (dc : DataChannel W) (ch : IsChannel dc) where
  sent-calm :
      (size : ℕ) (r : Option ℕ × W)
      → size < 2 ^ 63
      → ((n : ℕ) → r.0 ≡ some n → n ≤ size)
      → (sent dc size r).0 ≢ err rtc_data_channel_message_incomplete
  sent-calm size (some s, w) h l e = let q = unequal s size (l s refl) h in ground arith
  sent-calm size (none, w) h l e = ground arith

  send_chunk-calm :
      (c : Chunk) (w : W) → (send_chunk dc c w).0 ≢ err rtc_data_channel_message_incomplete
  unfolding send_chunk bound
  send_chunk-calm c w e = elim (Result-cases (dc.to_bincode c)) [
    | inl (bytes, q) ↦
        sent-calm (length bytes) (dc.send w bytes) (ch.narrow c bytes q) (ch.takes w bytes)
          (rw q at e)
    | inr (inl (x, q)) ↦ ch.coding c (q ∙ ap err (err-inj (rw q at e)))
    | inr (inr q) ↦ panic≢err (rw q at e)
  ]

  bound-calm :
      (r : Result (Unit {0}) × W) (f : Unit {0} → Act W (Unit {0}))
      → r.0 ≢ err rtc_data_channel_message_incomplete
      → ((w : W) → (f tt w).0 ≢ err rtc_data_channel_message_incomplete)
      → (bound r f).0 ≢ err rtc_data_channel_message_incomplete
  unfolding bound
  bound-calm (ok tt, w) f h g e = g w e
  bound-calm (err x, w) f h g e = h (ap err (err-inj e))
  bound-calm (panic, w) f h g e = panic≢err e

  send_chunks-calm :
      (l : List Chunk) (w : W) → (send_chunks dc l w).0 ≢ err rtc_data_channel_message_incomplete
  unfolding send_chunks
  send_chunks-calm [] w e = ok≢err e
  send_chunks-calm (c ∷ l) w e =
      bound-calm (send_chunk dc c w) _ (send_chunk-calm c w) (send_chunks-calm l) e

-- With a channel that takes at most what it is given, chunks of less than 2 ^ 63 bytes, and a coding that does
-- not fail so by itself, `send_message` never reports an incomplete message, however few of the bytes
-- the channel takes.
pub incomplete_unnoticed :
    {W : Type 0} (dc : DataChannel W) (meta : ChunkMeta) (msg : List ℕ) (w : W)
    → IsChannel dc
    → (send_message dc meta msg w).0 ≢ err rtc_data_channel_message_incomplete
unfolding send_message bound from_bytes
incomplete_unnoticed dc meta msg w ch e = elim (Bool-cases (ltb transport_max_size (length msg))) [
  | inl q ↦ large≢incomplete (err-inj (rw q at e))
  | inr q ↦ elim (Bool-cases (dc.get_data_channel w)) [
    | inl g ↦ send_chunks-calm dc ch _ w (rw (q, g) at e)
    | inr g ↦ ready≢incomplete (err-inj (rw (q, g) at e))
  ]
]
