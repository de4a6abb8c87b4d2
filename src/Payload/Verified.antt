-- ===== src/Payload/Verified.antt =====
-- `MessagePayload::verify` and `is_expired`, both verifications together.
use rings_node.Base.{
  ℕ, ◌+◌, ◌-◌, ◌%◌, ◌^◌, ◌<◌, ◌≤◌, ◌≡◌, ◌↔◌, sym, ◌∙◌, Bool, true, false≢true, ◌&&◌, arith,
  Bool-cases, inl, inr,
}
use rings_node.Chunk.{max_ttl_ms, ts_offset_tolerance_ms}
use rings_node.Session.{MessageVerification, Signers, verify_message}
use rings_node.Session.Trust.{IsTrusted, verify_message-IsTrusted}
use rings_node.Payload.{MessagePayload, is_expired, verify}

-- The lifetime is allowed, the time is not in the future, and the end is past.
abbrev pub IsOver : {K : Type 0} → ℕ → MessageVerification K → Type 0
IsOver now v =
    (v.ttl_ms ≤ max_ttl_ms)
    × ((v.ts_ms + 2 ^ 128 - ts_offset_tolerance_ms) % 2 ^ 128 ≤ now)
    × ((v.ts_ms + v.ttl_ms) % 2 ^ 128 < now)

and_true : (a b : Bool) → (a && b) ≡ true ↔ ((a ≡ true) × (b ≡ true))
and_true a b = (λ h. ground arith, λ h. ground arith)

module _ {K T : Type 0} where
  is_expired-IsOver :
      (now : ℕ) (p : MessagePayload K T)
      → is_expired now p ≡ true ↔ (IsOver now p.verification × IsOver now p.origin_verification)
  unfolding is_expired
  is_expired-IsOver now p = (λ h. ground (arith, h), λ h. ground (arith, h))

  -- A payload verifies exactly if both its verifications are trusted, the sender's and the origin's, and
  -- not both are over. So a payload verifies as long as one of the two is not over; and a verification
  -- with a lifetime above the maximum, or a time in the future, is never over.
  pub verify_lem :
      (sg : Signers K T) (now : ℕ) (p : MessagePayload K T)
      → verify sg now p ≡ true ↔ (
          (IsOver now p.verification × IsOver now p.origin_verification → ⊥)
          × IsTrusted sg now p.verification p.content
          × IsTrusted sg now p.origin_verification p.content)
  unfolding verify
  verify_lem sg now p =
      let a = verify_message-IsTrusted sg now p.verification p.content in
      let b = verify_message-IsTrusted sg now p.origin_verification p.content in
      let ab =
        and_true (verify_message sg now p.verification p.content)
          (verify_message sg now p.origin_verification p.content) in
      let over = is_expired-IsOver now p in
      elim (Bool-cases (is_expired now p)) [
        | inl e ↦ (λ h. absurd (false≢true (rw (e, verify) at h)), λ t. absurd (t.0 (over.0 e)))
        | inr e ↦ (
          λ h.
              let both = ab.0 (rw (e, verify) at h) in
              (λ o. absurd (false≢true (sym e ∙ over.1 o)), a.0 both.0, b.0 both.1),
          λ t. let (_, ta, tb) = t in rw e (ab.1 (a.1 ta, b.1 tb)),
        )
      ]
