-- ===== src/Examples/Serialiser.antt =====
-- A serialisation of fixed width: discriminant, time, sequence, type, severity, length, payload.
use rust_telemetry_logger.Prelude.{
  ℕ, zero, ◌+◌, ◌*◌, ◌/◌, ◌%◌, ◌^◌, ◌≡◌, refl, ap, arith, List, ◌∷◌, ◌++◌, ◌==◌, true,
  if◌then◌else◌, Option, some, none, length, drop, leb, le→leb, All, All-append, IsU8, le16, le32,
  u16_of, u32_of, u16_of-le16, u32_of-le32,
}
use rust_telemetry_logger.External.Postcard.{Postcard}
use rust_telemetry_logger.Record.{StoredRecord, v1, RecordV1, IsStoredRecord}
use rust_telemetry_logger.Record.Format.{payload_of, PostcardLaws}

-- All fields behind the time.
abbrev fields : RecordV1 → List ℕ
fields r = le32 r.sequence ++ (r.packet_type ∷ r.severity ∷ (le16 (length r.payload) ++ r.payload))

abbrev bytes : StoredRecord → List ℕ
bytes (v1 r) = 0 ∷ (le32 (r.timestamp_us % 2 ^ 32) ++ (le32 (r.timestamp_us / 2 ^ 32) ++ fields r))

-- The last bytes, when the fields before them are known.
unfoldable read_payload : (ℕ → List ℕ → RecordV1) → List ℕ → Option StoredRecord
read_payload make (a ∷ (b ∷ payload)) =
    if u16_of a b == length payload then some (v1 (make (u16_of a b) payload)) else none
read_payload make _ = none

unfoldable read_sequence : ℕ → List ℕ → Option StoredRecord
unfolding read_payload
read_sequence time (a ∷ (b ∷ (c ∷ (d ∷ (t ∷ (s ∷ rest)))))) =
    read_payload
      (λ n payload. record {
        timestamp_us = time;
        sequence = u32_of a b c d;
        packet_type = t;
        severity = s;
        payload = payload;
      })
      rest
read_sequence time _ = none

unfoldable read_high : ℕ → List ℕ → Option StoredRecord
unfolding read_sequence
read_high low (a ∷ (b ∷ (c ∷ (d ∷ rest)))) = read_sequence (low + 2 ^ 32 * u32_of a b c d) rest
read_high low _ = none

unfoldable pub read_record : List ℕ → Option StoredRecord
unfolding read_high
read_record (zero ∷ (a ∷ (b ∷ (c ∷ (d ∷ rest))))) = read_high (u32_of a b c d) rest
read_record _ = none

abbrev pub serialiser : Postcard StoredRecord
serialiser = record {
  to_slice = λ r buf.
      if leb (length (bytes r)) (length buf)
      then some (length (bytes r), bytes r ++ drop (length (bytes r)) buf)
      else none;
  from_bytes = read_record;
}

length-bytes : (r : StoredRecord) → length (bytes r) ≡ length (payload_of r) + 17
length-bytes (v1 r) = omega arith

bytes-IsU8 : (r : StoredRecord) → IsStoredRecord r → All IsU8 (bytes r)
bytes-IsU8 (v1 r) h =
    let n = length r.payload in
    let low = r.timestamp_us % 2 ^ 32 in
    let high = r.timestamp_us / 2 ^ 32 in
    let tail = All-append IsU8 (le16 n) r.payload (omega arith) h.payload in
    let rest =
      All-append IsU8 (le32 r.sequence) (r.packet_type ∷ r.severity ∷ (le16 n ++ r.payload))
        (omega arith) (h.packet_type, (h.severity, tail)) in
    (
      omega arith,
      All-append IsU8 (le32 low) (le32 high ++ fields r) (omega arith)
          (All-append IsU8 (le32 high) (fields r) (omega arith) rest),
    )

read_record-bytes : (r : StoredRecord) → IsStoredRecord r → read_record (bytes r) ≡ some r
unfolding read_record
read_record-bytes (v1 r) h =
    let n = length r.payload in
    let low = u32_of-le32 (r.timestamp_us % 2 ^ 32) (omega arith) in
    let high = u32_of-le32 (r.timestamp_us / 2 ^ 32) (omega (arith, h.timestamp_us)) in
    let seq = u32_of-le32 r.sequence h.sequence in
    let len : (u16_of (n % 256) (n / 256 % 256) == n) ≡ true =
      ground (arith, u16_of-le16 n (omega (arith, h.fits))) in
    rw len (rw (low, high, seq) (ap (λ t. some (v1 (record r { timestamp_us = t }))) (omega arith)))

pub serialiser-laws : PostcardLaws serialiser
serialiser-laws = record {
  bytes = bytes;
  to_slice_lem = λ r buf fits. rw (le→leb (length (bytes r)) (length buf) fits) refl;
  length-bytes = λ r h. omega (arith, length-bytes r);
  bytes-IsU8 = bytes-IsU8;
  from_bytes-bytes = read_record-bytes;
}
