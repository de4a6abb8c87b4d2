-- ===== src/Transport/Delivery.antt =====
-- What a message that was sent puts on the channel, and what the other side makes of it.
use rings_node.Base.{
  ℕ, ◌≡◌, ◌≢◌, ap, sym, ◌∙◌, subst, inl, inr, Bool, true, false, not, Option, none, some, List, [],
  ◌∷◌, ◌++◌, length, ltb, ◌==◌, Bool-cases, if◌then◌else◌, All, Distinct,
}
use mathlib.Core.List.{append_assoc, append-nil}
use rings_node.Error.{err≢ok, Result, ok, rtc_data_channel_not_ready}
use rings_node.Chunk.{Chunk, ChunkMeta, from_bytes, try_withdraw}
use rings_node.Chunk.Split.{IsPart}
use rings_node.Chunk.Order.{withdraw_any_order}
use rings_node.Act.{lift, gets, raise, ◌>>=◌}
use rings_node.Act.Gives.{bound_steps}
use rings_node.Transport.{
  DataChannel, complement, sent, send_chunk, send_chunks, send_message, transport_mtu,
  transport_max_size,
}

-- `taken` is what the channel took, in order.
pub record IsLogged {W : Type 0} (dc : DataChannel W) (taken : W → List (List ℕ)) : Type 0 where
  pub logs :
      (w w' : W) (bytes : List ℕ) (n : ℕ)
      → dc.send w bytes ≡ (some n, w')
      → taken w' ≡ taken w ++ bytes ∷ []

-- The codes of the chunks, one for each.
abbrev pub Encodes : {W : Type 0} → DataChannel W → List Chunk → List (List ℕ) → Type 0
Encodes dc [] [] = Unit
Encodes dc (c ∷ l) (b ∷ bs) = (dc.to_bincode c ≡ ok b) × Encodes dc l bs
Encodes dc _ _ = ⊥

ok-inj : {A : Type 0} {a b : A} → ◌≡◌ {A = Result A} (ok a) (ok b) → a ≡ b
ok-inj e = cc

module _ {W : Type 0} (dc : DataChannel W) (taken : W → List (List ℕ))
    (log : IsLogged dc taken) where
  sent-ok :
      (size : ℕ) (r : Option ℕ × W) (w' : W)
      → sent dc size r ≡ (ok tt, w')
      → (n : ℕ) × (r ≡ (some n, w'))
  sent-ok size (some s, w) w' e = elim (Bool-cases (complement s == size)) [
    | inl q ↦ let e' = rw q at e in cc
    | inr q ↦ (s, ap (λ x. (some s, x)) (ap (λ (x : Result (Unit {0}) × W). x.1) (rw q at e)))
  ]
  sent-ok size (none, w) w' e = elim (Bool-cases (dc.is_open w)) [
    | inl q ↦ let e' = rw q at e in cc
    | inr q ↦ let e' = rw q at e in cc
  ]

  send_chunk-log :
      (c : Chunk) (w w' : W)
      → send_chunk dc c w ≡ (ok tt, w')
      → (b : List ℕ) × (dc.to_bincode c ≡ ok b) × (taken w' ≡ taken w ++ b ∷ [])
  unfolding send_chunk
  send_chunk-log c w w' e =
      let (b, w1, q, rest) = bound_steps (lift (dc.to_bincode c) w) _ tt w' e in
      let same : w ≡ w1 = ap (λ (x : Result (List ℕ) × W). x.1) q in
      let (n, took) = sent-ok (length b) (dc.send w1 b) w' rest in
      (b, ap (λ (x : Result (List ℕ) × W). x.0) q, rw same (log.logs w1 w' b n took))

  send_chunks-log :
      (l : List Chunk) (w w' : W)
      → send_chunks dc l w ≡ (ok tt, w')
      → (bs : List (List ℕ)) × Encodes dc l bs × (taken w' ≡ taken w ++ bs)
  unfolding send_chunks
  send_chunks-log [] w w' e = (
    [],
    tt,
    ap taken (sym (ap (λ (x : Result (Unit {0}) × W). x.1) e)) ∙ sym (append-nil (taken w)),
  )
  send_chunks-log (c ∷ l) w w' e =
      let (u, w1, q, rest) = bound_steps (send_chunk dc c w) _ tt w' e in
      let (b, code, t) = send_chunk-log c w w1 q in
      let (bs, codes, ts) = send_chunks-log l w1 w' rest in
      (b ∷ bs, (code, codes), ts ∙ ap (λ x. x ++ bs) t ∙ append_assoc (taken w) (b ∷ []) bs)

  ready-log :
      (meta : ChunkMeta) (msg : List ℕ) (chunks : List Chunk)
      → from_bytes transport_mtu meta msg ≡ ok chunks
      → (ready : Bool) (w w' : W)
      → (if not ready
            then raise rtc_data_channel_not_ready
            else (do chunks ← lift (from_bytes transport_mtu meta msg); send_chunks dc chunks))
          w
        ≡ (ok tt, w')
      → (bs : List (List ℕ)) × Encodes dc chunks bs × (taken w' ≡ taken w ++ bs)
  ready-log meta msg chunks cut false w w' e = cc
  ready-log meta msg chunks cut true w w' e =
      let (l, w1, split, rest) =
        bound_steps (lift (from_bytes transport_mtu meta msg) w) _ tt w' e in
      let (bs, codes, t) = send_chunks-log l w1 w' rest in
      let same : l ≡ chunks =
        ok-inj (sym (ap (λ (x : Result (List Chunk) × W). x.0) split) ∙ cut) in
      (
        bs,
        subst (λ l. Encodes dc l bs) same codes,
        t ∙ ap (λ x. taken x ++ bs) (sym (ap (λ (x : Result (List Chunk) × W). x.1) split)),
      )

  -- Where `send_message` succeeds on a message that is not empty, the channel took the codes of the message's
  -- chunks, in their order and nothing else, and any pool that holds each of these chunks once, in
  -- whatever order, gives the message back.
  pub send_message_delivers :
      (meta : ChunkMeta) (msg : List ℕ) (chunks cs : List Chunk) (w w' : W)
      → msg ≢ []
      → send_message dc meta msg w ≡ (ok tt, w')
      → from_bytes transport_mtu meta msg ≡ ok chunks
      → All (IsPart chunks) cs
      → Distinct cs
      → length cs ≡ length chunks
      → ((bs : List (List ℕ)) × Encodes dc chunks bs × (taken w' ≡ taken w ++ bs))
        × (try_withdraw cs ≡ some msg)
  unfolding send_message
  send_message_delivers meta msg chunks cs w w' ne e cut ps d n =
      elim (Bool-cases (ltb transport_max_size (length msg))) [
        | inl q ↦ absurd (err≢ok (ap (λ (x : Result (Unit {0}) × W). x.0) (rw q at e)))
        | inr q ↦
            let (ready, w0, look, rest) =
              bound_steps (gets dc.get_data_channel w) _ tt w' (rw q at e) in
            let (bs, codes, t) = ready-log meta msg chunks cut ready w0 w' rest in
            (
              (
                bs,
                codes,
                t ∙ ap (λ x. taken x ++ bs) (sym (ap (λ (x : Result Bool × W). x.1) look)),
              ),
              withdraw_any_order transport_mtu meta msg chunks cs ne cut ps d n,
            )
      ]
