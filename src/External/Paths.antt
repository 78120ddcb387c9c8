-- ===== src/External/Paths.antt =====
-- `std::fs` and `std::path` for the decoder, and the crate `comfy_table`: paths are a `P`, I/O
-- errors an `E`.
use rust_telemetry_logger.Prelude.{ℕ, List, Option, Result}

pub record Paths (P E : Type 0) : Type 0 where
  -- `fs::read_dir`, with the path of each entry.
  pub read_dir : P → Result (List (Result P E)) E
  -- `path.file_name().and_then(|n| n.to_str())`
  pub file_name : P → Option (List ℕ)
  -- `Vec<PathBuf>::sort`
  pub sort : List P → List P
  -- `fs::read`
  pub read : P → Result (List ℕ) E
  -- The text of a `comfy_table::Table` with the header and these rows.
  pub render : List (List ℕ) → List (List (List ℕ)) → List ℕ
