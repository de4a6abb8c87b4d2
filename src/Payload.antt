-- ===== src/Payload.antt =====
-- MessagePayload of rings-core/src/message/payload.rs: when a payload counts as expired, and when it
-- verifies. The signatures are the record `Signers`.
pub mod New
pub mod Verified
pub mod Made
mod Examples
use rings_node.Base.{ℕ, ◌+◌, ◌-◌, ◌%◌, ◌^◌, Bool, true, false, not, ◌&&◌, ltb, if◌then◌else◌}
use rings_node.Did.{Did}
use rings_node.Chunk.{max_ttl_ms, ts_offset_tolerance_ms}
use rings_node.Relay.{MessageRelay}
use rings_node.Session.{MessageVerification, Signers, verify_message}

pub record MessagePayload (K T : Type 0) : Type 0 where
  pub content : T
  pub tx_id : ℕ
  pub addr : Did
  pub verification : MessageVerification K
  pub origin_verification : MessageVerification K
  pub relay : MessageRelay

-- `ts_ms - TS_OFFSET_TOLERANCE_MS > now`, with the wrap of a `u128`.
abbrev pub from_future : ℕ → ℕ → Bool
from_future now ts_ms = ltb now ((ts_ms + 2 ^ 128 - ts_offset_tolerance_ms) % 2 ^ 128)

-- `now > ts_ms + ttl_ms`
abbrev pub is_over : ℕ → ℕ → ℕ → Bool
is_over now ts_ms ttl_ms = ltb ((ts_ms + ttl_ms) % 2 ^ 128) now

module _ {K T : Type 0} where
  unfoldable pub is_expired : ℕ → MessagePayload K T → Bool
  is_expired now self =
      if ltb max_ttl_ms self.verification.ttl_ms
      then false
      else if ltb max_ttl_ms self.origin_verification.ttl_ms
      then false
      else if from_future now self.verification.ts_ms
      then false
      else if from_future now self.origin_verification.ts_ms
      then false
      else is_over now self.verification.ts_ms self.verification.ttl_ms
        && is_over now self.origin_verification.ts_ms self.origin_verification.ttl_ms

  unfoldable pub verify : Signers K T → ℕ → MessagePayload K T → Bool
  verify sg now self =
      if is_expired now self
      then false
      else verify_message sg now self.verification self.content
        && verify_message sg now self.origin_verification self.content
