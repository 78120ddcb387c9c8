-- ===== src/Record/Format.antt =====
-- The on-disk form of a record, and what record.rs relies on of postcard.
use rust_telemetry_logger.Prelude.{
  ℕ, ◌+◌, ◌≤◌, ◌≡◌, sym, refl, arith, List, ◌∷◌, ◌++◌, some, ret, ok, length, drop, length-append,
  length-drop, ge→ltb, le32, All, All-append, IsU8, zeroed, length-zeroed, slice_front,
  copy_at_front, append_assoc,
}
use rust_telemetry_logger.Protocol.{max_payload}
use rust_telemetry_logger.External.Cobs.{Cobs, CobsLaws}
use rust_telemetry_logger.External.Cobs.Delimiter.{written-encode, set_index-encode}
use rust_telemetry_logger.External.Crc.{Crc}
use rust_telemetry_logger.External.Postcard.{Postcard}
use rust_telemetry_logger.Record.{StoredRecord, v1, IsStoredRecord, encode, max_stored_record_bytes}

abbrev pub payload_of : StoredRecord → List ℕ
payload_of (v1 r) = r.payload

-- The documented behaviour of postcard on `StoredRecord`. At most 20 bytes surround the payload:
-- the discriminant, varints of u64, u32 and the length, and two bytes.
pub record PostcardLaws (p : Postcard StoredRecord) : Type 0 where
  pub bytes : StoredRecord → List ℕ
  pub to_slice_lem :
      (r : StoredRecord) (buf : List ℕ)
      → length (bytes r) ≤ length buf
      → p.to_slice r buf ≡ some (length (bytes r), bytes r ++ drop (length (bytes r)) buf)
  pub length-bytes :
      (r : StoredRecord) → IsStoredRecord r → length (bytes r) ≤ length (payload_of r) + 20
  pub bytes-IsU8 : (r : StoredRecord) → IsStoredRecord r → All IsU8 (bytes r)
  pub from_bytes-bytes : (r : StoredRecord) → IsStoredRecord r → p.from_bytes (bytes r) ≡ some r

pub fits_payload : (r : StoredRecord) → IsStoredRecord r → length (payload_of r) ≤ max_payload
fits_payload (v1 r) h = h.fits

module _ {postcard : Postcard StoredRecord} (pl : PostcardLaws postcard) (crc32 : Crc) {cobs : Cobs}
    (k : CobsLaws cobs) where
  -- The postcard bytes with their CRC-32, and the COBS body that goes to storage before the zero.
  abbrev pub checked_bytes : StoredRecord → List ℕ
  checked_bytes r = pl.bytes r ++ le32 (crc32.checksum (pl.bytes r))

  abbrev pub stored_body : StoredRecord → List ℕ
  stored_body r = k.encoded (checked_bytes r)

  pub length-checked_bytes : (r : StoredRecord) → length (checked_bytes r) ≡ length (pl.bytes r) + 4
  length-checked_bytes r = length-append (pl.bytes r) (le32 (crc32.checksum (pl.bytes r)))

  pub length-checked_bytes_le :
      (r : StoredRecord) → IsStoredRecord r → length (checked_bytes r) ≤ 504
  length-checked_bytes_le r h =
      omega (arith, length-checked_bytes r, pl.length-bytes r h, fits_payload r h)

  pub length-stored_body : (r : StoredRecord) → IsStoredRecord r → length (stored_body r) ≤ 506
  length-stored_body r h = omega (
    arith,
    k.length-encoded (checked_bytes r),
    k.max_encoding_length_le (length (checked_bytes r)),
    length-checked_bytes r,
    length-checked_bytes_le r h,
  )

  pub checked_bytes-IsU8 : (r : StoredRecord) → IsStoredRecord r → All IsU8 (checked_bytes r)
  checked_bytes-IsU8 r h =
      All-append IsU8 (pl.bytes r) (le32 (crc32.checksum (pl.bytes r))) (pl.bytes-IsU8 r h)
        (omega arith)

  -- A buffer of `MAX_STORED_RECORD_BYTES` takes every well-formed record: the COBS body of the
  -- postcard bytes and their CRC-32, then the delimiter; the rest of the buffer stays.
  pub encode_layout :
      (r : StoredRecord) (buf : List ℕ)
      → IsStoredRecord r
      → max_stored_record_bytes ≤ length buf
      → encode postcard crc32 cobs r buf
        ≡ ret (
          ok (length (stored_body r) + 1),
          stored_body r ++ (0 ∷ drop (length (stored_body r) + 1) buf),
        )
  unfolding encode
  encode_layout r buf h room =
      let bytes = pl.bytes r in
      let n = length bytes in
      let z = zeroed max_stored_record_bytes in
      let crc = le32 (crc32.checksum bytes) in
      let src = checked_bytes r in
      let rest = drop (n + 4) z in
      let len : n ≤ 500 = omega (arith, pl.length-bytes r h, fits_payload r h) in
      let e : length src ≡ n + 4 = length-checked_bytes r in
      let fits : n + 4 ≤ length (bytes ++ drop n z) =
        rw length-append (rw length-drop (rw length-zeroed (omega arith))) in
      let room' : cobs.max_encoding_length (length src) + 1 ≤ length buf =
        omega (arith, k.max_encoding_length_le (length src)) in
      rw (pl.to_slice_lem r z (rw length-zeroed (omega arith)), encode)
        (rw (slice_front bytes (drop n z) n refl) (
          rw (ge→ltb (length (bytes ++ drop n z)) (n + 4) fits) (
            rw (copy_at_front bytes z crc n (n + 4) refl refl (rw length-zeroed (omega arith))) (
              rw (ge→ltb (length buf) (cobs.max_encoding_length (n + 4) + 1) (rw e at room')) (
                rw (← append_assoc bytes crc rest) (
                  rw (slice_front src rest (n + 4) (sym e)) (
                    rw (set_index-encode k src buf (omega arith) room')
                      (rw (written-encode k src buf room')))))))))
