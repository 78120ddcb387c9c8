-- ===== src/Segment.antt =====
-- crates/telemetry-std/src/lib.rs: `read_segment`.
pub mod Read
use rust_telemetry_logger.Prelude.{
  ℕ, List, [], ◌∷◌, Run, ret, ◌>>=◌, ◌==◌, if◌then◌else◌, is_empty, Result,
}
use rust_telemetry_logger.Error.{Error}
use rust_telemetry_logger.External.Cobs.{Cobs}
use rust_telemetry_logger.External.Crc.{Crc}
use rust_telemetry_logger.External.Postcard.{Postcard}
use rust_telemetry_logger.Record.{StoredRecord, decode}

-- `x` in front of the first chunk.
unfoldable pub extend_first : ℕ → List (List ℕ) → List (List ℕ)
extend_first x [] = (x ∷ []) ∷ []
extend_first x (c ∷ cs) = (x ∷ c) ∷ cs

-- `bytes.split(|&b| b == 0x00)`: one chunk more than there are zero bytes.
unfoldable pub split : List ℕ → List (List ℕ)
split [] = [] ∷ []
split (b ∷ bs) = let rest = split bs in if b == 0x00 then [] ∷ rest else extend_first b rest

module _ (postcard : Postcard StoredRecord) (crc32 : Crc) (cobs : Cobs) where
  -- `filter(|chunk| !chunk.is_empty())` and `map(record::decode)`, all of the iterator.
  unfoldable pub decode_chunks : List (List ℕ) → Run (List (Result StoredRecord Error))
  decode_chunks [] = ret []
  decode_chunks (c ∷ cs) =
      let rest = decode_chunks cs in
      if is_empty c
      then rest
      else (decode postcard crc32 cobs c >>= λ r. rest >>= λ rs. ret (r ∷ rs))

  unfoldable pub read_segment : List ℕ → Run (List (Result StoredRecord Error))
  read_segment bytes = decode_chunks (split bytes)
