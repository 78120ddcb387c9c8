-- ===== src/External/Postcard.antt =====
-- The crate `postcard`: serialisation of a type that derives serde's traits.
use rust_telemetry_logger.Prelude.{ℕ, List, Option}

pub record Postcard (A : Type 0) : Type 0 where
  -- `to_slice(value, buf)`: the length of the bytes written at the front, and `buf` afterwards.
  pub to_slice : A → List ℕ → Option (ℕ × List ℕ)
  pub from_bytes : List ℕ → Option A
