-- ===== src/External/Crc.antt =====
-- The crate `crc`: a digest of one algorithm, `CRC_16_IBM_SDLC` or `CRC_32_ISO_HDLC` here.
use rust_telemetry_logger.Prelude.{ℕ, ◌<◌, ◌≡◌, List, ◌++◌}

pub record Crc : Type 1 where
  pub Digest : Type 0
  pub digest : Digest
  pub update : Digest → List ℕ → Digest
  pub finalize : Digest → ℕ
  pub checksum : List ℕ → ℕ

-- `modulus` is 2 ^ 16 or 2 ^ 32.
pub record CrcLaws (modulus : ℕ) (c : Crc) : Type 0 where
  pub update-update :
      (d : c.Digest) (xs ys : List ℕ) → c.update (c.update d xs) ys ≡ c.update d (xs ++ ys)
  pub checksum_lem : (xs : List ℕ) → c.checksum xs ≡ c.finalize (c.update c.digest xs)
  pub finalize-lt : (d : c.Digest) → c.finalize d < modulus
