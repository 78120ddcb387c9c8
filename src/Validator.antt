-- ===== src/Validator.antt =====
-- crates/telemetry-core/src/validator.rs: CRC, discriminants, length and sequence.
pub mod Accept
use rust_telemetry_logger.Prelude.{
  ℕ, not, [], ◌∷◌, Option, none, some, ◌==◌, length, if◌then◌else◌, u16_of, le16, le32,
  wrapping_add_u32, is_none,
}
use rust_telemetry_logger.Protocol.{packet_type_of, severity_of}
use rust_telemetry_logger.Error.{
  Outcome, accepted, rejected, crc, sequence_gap, filtered, bad_length,
}
use rust_telemetry_logger.External.Crc.{Crc}
use rust_telemetry_logger.Frame.{Frame}

pub record Validator : Type 0 where
  pub last_seq : Option ℕ

-- `new`, and `Default`.
abbrev pub new : Validator
new = record { last_seq = none }

-- Check 5 of `check`: the sequence number, wrap-aware.
unfoldable pub check_sequence : Validator → Frame → Outcome Frame × Validator
check_sequence v frame =
    let seq = frame.header.sequence in
    elim v.last_seq [
      | none ↦ (accepted frame, record { last_seq = some seq })
      | some last ↦
          let expected = wrapping_add_u32 last 1 in
          if not (seq == expected)
          then (rejected (sequence_gap expected seq), record { last_seq = some seq })
          else (accepted frame, record { last_seq = some seq })
    ]

module _ (crc16 : Crc) where
  -- The validator's own CRC over the fields of the frame.
  unfoldable pub computed_crc : Frame → ℕ
  computed_crc frame =
      let d₀ = crc16.digest in
      let d₁ =
        crc16.update d₀
          (frame.header.version ∷ frame.header.packet_type ∷ frame.header.severity ∷ []) in
      let d₂ = crc16.update d₁ (le32 frame.header.sequence) in
      let d₃ = crc16.update d₂ (le16 frame.header.payload_len) in
      let d₄ = crc16.update d₃ frame.payload in crc16.finalize d₄

  unfoldable pub check : Validator → Frame → Outcome Frame × Validator
  unfolding check_sequence
  check v frame =
      let computed = computed_crc frame in
      let stored = u16_of frame.crc_bytes.0 frame.crc_bytes.1 in
      if not (computed == stored)
      then (rejected (crc computed stored), v)
      else if is_none (packet_type_of frame.header.packet_type)
      then (rejected filtered, v)
      else if is_none (severity_of frame.header.severity)
      then (rejected filtered, v)
      else if not (frame.header.payload_len == length frame.payload)
      then (rejected bad_length, v)
      else check_sequence v frame
