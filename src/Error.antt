-- ===== src/Error.antt =====
-- crates/telemetry-core/src/error.rs: rejections, outcomes and faults.
use Prim.Native.String.{String}
use rust_telemetry_logger.Prelude.{ℕ}

pub data Reason : Type 0 where
  -- expected, actual
  crc : ℕ → ℕ → Reason
  -- expected, got
  sequence_gap : ℕ → ℕ → Reason
  filtered : Reason
  bad_length : Reason

pub data Outcome (T : Type 0) : Type 0 where
  accepted : T → Outcome T
  rejected : Reason → Outcome T

pub data Error : Type 0 where
  buffer_full : Error
  storage : Error
  codec : Error

-- `fmt::Display`
unfoldable pub display : Error → String
display buffer_full = "ring buffer full"
display storage = "storage write/flush failed"
display codec = "record encode/decode failed"
