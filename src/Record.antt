-- ===== src/Record.antt =====
-- crates/telemetry-core/src/record.rs: storage records and their on-disk form.
pub mod Format
pub mod Total
pub mod RoundTrip
use rust_telemetry_logger.Prelude.{
  ℕ, ◌+◌, ◌-◌, ◌≤◌, List, [], ◌∷◌, ◌++◌, Bool, false, not, Option, none, some, Run, ret, ◌>>=◌, ltb,
  ◌==◌, length, drop, if◌then◌else◌, copy_at, slice, set_index, le32, u32_of, zeroed, is_empty,
  last?, Result, ok, err, All, IsU8, IsU32, IsU64,
}
use rust_telemetry_logger.Protocol.{max_payload}
use rust_telemetry_logger.Error.{Error, codec}
use rust_telemetry_logger.External.Cobs.{Cobs}
use rust_telemetry_logger.External.Crc.{Crc}
use rust_telemetry_logger.External.Postcard.{Postcard}

abbrev pub max_stored_record_bytes : ℕ
max_stored_record_bytes = 512

pub record RecordV1 : Type 0 where
  pub timestamp_us : ℕ
  pub sequence : ℕ
  pub packet_type : ℕ
  pub severity : ℕ
  pub payload : List ℕ

pub data StoredRecord : Type 0 where
  v1 : RecordV1 → StoredRecord

-- `<[u8; 4]>::try_from(slice)` under `u32::from_le_bytes`; `none` is a slice of another length.
unfoldable pub u32_from_slice : List ℕ → Option ℕ
u32_from_slice (a ∷ (b ∷ (c ∷ (d ∷ [])))) = some (u32_of a b c d)
u32_from_slice _ = none

-- `buf.last() == Some(&0x00)`
unfoldable pub ends_with_zero : List ℕ → Bool
ends_with_zero buf = elim (last? buf) [ none ↦ false | some b ↦ b == 0x00 ]

module _ (postcard : Postcard StoredRecord) (crc32 : Crc) (cobs : Cobs) where
  -- The result, and `buf` afterwards.
  unfoldable pub encode : StoredRecord → List ℕ → Run (Result ℕ Error × List ℕ)
  encode r buf = elim (postcard.to_slice r (zeroed max_stored_record_bytes)) [
    | none ↦ ret (err codec, buf)
    | some (postcard_len, pre_cobs) ↦ slice pre_cobs 0 postcard_len >>= λ bytes.
        let crc_value = crc32.checksum bytes in
        let pre_cobs_end = postcard_len + 4 in
        let write : Run (Result ℕ Error × List ℕ) = do
          p ← copy_at pre_cobs postcard_len pre_cobs_end (le32 crc_value)
          let max_cobs = cobs.max_encoding_length pre_cobs_end
          let finish : Run (Result ℕ Error × List ℕ) = do
            src ← slice p 0 pre_cobs_end
            let (cobs_len, b) = cobs.encode src buf
            b' ← set_index b cobs_len 0x00
            ret (ok (cobs_len + 1), b')
          if ltb (length buf) (max_cobs + 1) then ret (err codec, buf) else finish
        in if ltb (length pre_cobs) pre_cobs_end then ret (err codec, buf) else write
  ]

  -- `decode` from the CRC check on: `postcard_end` bytes, then four of CRC-32.
  unfoldable pub verify : List ℕ → ℕ → Run (Result StoredRecord Error)
  verify decode_buf decoded_len =
      let postcard_end = decoded_len - 4 in
      slice decode_buf postcard_end decoded_len >>= λ crc_slice. elim (u32_from_slice crc_slice) [
        | none ↦ ret (err codec)
        | some stored_crc ↦ slice decode_buf 0 postcard_end >>= λ bytes.
            if not (crc32.checksum bytes == stored_crc)
            then ret (err codec)
            else elim (postcard.from_bytes bytes) [ none ↦ ret (err codec) | some r ↦ ret (ok r) ]
      ]

  -- `decode` behind the delimiter.
  unfoldable pub decode_cobs : List ℕ → Run (Result StoredRecord Error)
  decode_cobs cobs_bytes =
      let n = length cobs_bytes in
      let decode_into : Run (Result StoredRecord Error) = do
        b₁ ← copy_at (zeroed max_stored_record_bytes) 0 n cobs_bytes
        front ← slice b₁ 0 n
        let (decoded, front') = cobs.decode_in_place front
        let decode_buf = front' ++ drop n b₁
        elim decoded [
          | none ↦ ret (err codec)
          | some decoded_len ↦
              if ltb decoded_len 4 then ret (err codec) else verify decode_buf decoded_len
        ]
      in if is_empty cobs_bytes
        then ret (err codec)
        else if ltb max_stored_record_bytes n
        then ret (err codec)
        else decode_into

  unfoldable pub decode : List ℕ → Run (Result StoredRecord Error)
  decode buf =
      let stripped : Run (Result StoredRecord Error) = do
        b ← slice buf 0 (length buf - 1)
        decode_cobs b
      in if ends_with_zero buf then stripped else decode_cobs buf

-- What the Rust types guarantee of a record.
pub record IsRecordV1 (r : RecordV1) : Type 0 where
  pub timestamp_us : IsU64 r.timestamp_us
  pub sequence : IsU32 r.sequence
  pub packet_type : IsU8 r.packet_type
  pub severity : IsU8 r.severity
  pub payload : All IsU8 r.payload
  pub fits : length r.payload ≤ max_payload

abbrev pub IsStoredRecord : StoredRecord → Type 0
IsStoredRecord (v1 r) = IsRecordV1 r
