-- ===== src/External/Cobs.antt =====
-- The crate `cobs` 0.3: consistent-overhead byte stuffing.
pub mod Delimiter
use rust_telemetry_logger.Prelude.{
  ℕ, ◌+◌, ◌/◌, ◌≤◌, ◌<◌, ◌≡◌, List, ◌++◌, Option, some, length, drop, All, IsU8,
}

pub record Cobs : Type 0 where
  -- `encode(src, dest)`: the number of bytes written, and `dest` afterwards.
  pub encode : List ℕ → List ℕ → ℕ × List ℕ
  -- `decode_in_place(buf)`: the decoded length if decoding succeeds, and `buf` afterwards.
  pub decode_in_place : List ℕ → Option ℕ × List ℕ
  pub max_encoding_length : ℕ → ℕ

abbrev pub IsNonzeroU8 : ℕ → Type 0
IsNonzeroU8 b = IsU8 b × (0 < b)

pub record CobsLaws (c : Cobs) : Type 0 where
  -- The bytes that `encode` writes for a source.
  pub encoded : List ℕ → List ℕ
  -- Into a buffer of the documented length, `encode` writes them at the front.
  pub encode_lem :
      (src dest : List ℕ)
      → c.max_encoding_length (length src) ≤ length dest
      → c.encode src dest ≡ (length (encoded src), encoded src ++ drop (length (encoded src)) dest)
  pub length-encoded :
      (src : List ℕ) → 0 < length src → length (encoded src) ≤ c.max_encoding_length (length src)
  pub max_encoding_length_le : (n : ℕ) → 0 < n → c.max_encoding_length n ≤ n + n / 254 + 1
  -- An encoding has a byte at least, and no zero byte.
  pub encoded_pos : (src : List ℕ) → 0 < length (encoded src)
  pub encoded-IsNonzeroU8 : (src : List ℕ) → All IsU8 src → All IsNonzeroU8 (encoded src)
  -- Decoding in place leaves the length of the buffer, and fits in it.
  pub length-decode : (buf : List ℕ) → length (c.decode_in_place buf).1 ≡ length buf
  pub decode-le : (buf : List ℕ) (n : ℕ) → (c.decode_in_place buf).0 ≡ some n → n ≤ length buf
  pub decode-IsU8 : (buf : List ℕ) → All IsU8 buf → All IsU8 (c.decode_in_place buf).1
  -- Decoding an encoding gives the source, at the front of the buffer.
  pub tail : List ℕ → List ℕ
  pub decode-encoded :
      (src : List ℕ)
      → All IsU8 src
      → c.decode_in_place (encoded src) ≡ (some (length src), src ++ tail src)
