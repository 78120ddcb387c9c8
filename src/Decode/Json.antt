-- ===== src/Decode/Json.antt =====
-- What a reader can recover from a line of `record_to_json`.
use rust_telemetry_logger.Prelude.{
  ℕ, ◌≡◌, ◌∙◌, ap, inl, arith, List, ◌∷◌, ◌++◌, length, drop, drop-append, codes, decimal,
  hex_bytes, read_decimal, read_decimal-decimal, read_hex, read_hex-hex_bytes, IsBreak, All, IsU8,
}
use rust_telemetry_logger.Decode.Text.{
  key_seq, key_ts_us, key_type, key_severity, key_payload_hex, key_payload_len, record_to_json,
}
use rust_telemetry_logger.Record.{v1, RecordV1}

-- A reader of such lines: it skips the keys and the names, and takes the numbers and the payload.
abbrev skip : List ℕ → List ℕ → List ℕ
skip key text = drop (length key) text

read_payload : ℕ → ℕ → ℕ → ℕ → List ℕ → RecordV1
read_payload sequence timestamp_us packet_type severity text = record {
  timestamp_us = timestamp_us;
  sequence = sequence;
  packet_type = packet_type;
  severity = severity;
  payload = (read_hex (skip (key_payload_hex severity) text)).0;
}

read_severity : ℕ → ℕ → ℕ → List ℕ → RecordV1
read_severity sequence timestamp_us packet_type text =
    let (severity, rest) = read_decimal 0 (skip (key_severity packet_type) text) in
    read_payload sequence timestamp_us packet_type severity rest

read_type : ℕ → ℕ → List ℕ → RecordV1
read_type sequence timestamp_us text =
    let (packet_type, rest) = read_decimal 0 (skip key_type text) in
    read_severity sequence timestamp_us packet_type rest

read_timestamp : ℕ → List ℕ → RecordV1
read_timestamp sequence text =
    let (timestamp_us, rest) = read_decimal 0 (skip key_ts_us text) in
    read_type sequence timestamp_us rest

pub read_line : List ℕ → RecordV1
read_line text =
    let (sequence, rest) = read_decimal 0 (skip key_seq text) in read_timestamp sequence rest

number_field :
    (key : List ℕ) (n : ℕ) (rest : List ℕ)
    → IsBreak rest
    → read_decimal 0 (skip key (key ++ (decimal n ++ rest))) ≡ (n, rest)
number_field key n rest h =
    ap (read_decimal 0) (drop-append key (decimal n ++ rest)) ∙ read_decimal-decimal n rest h

payload_field :
    (key payload rest : List ℕ)
    → All IsU8 payload
    → (read_hex (skip key (key ++ (hex_bytes payload ++ (34 ∷ rest))))).0 ≡ payload
payload_field key payload rest h =
    ap (λ t. (read_hex t).0) (drop-append key (hex_bytes payload ++ (34 ∷ rest)))
    ∙ ap (λ r. r.0) (read_hex-hex_bytes payload rest h)

with_payload :
    (v : RecordV1) (p : List ℕ) → p ≡ v.payload → ◌≡◌ {A = RecordV1} (record v { payload = p }) v
with_payload v p e = ap {A = List ℕ} {B = RecordV1} (λ p. record v { payload = p }) e

read_payload_lem :
    (v : RecordV1) (rest : List ℕ)
    → All IsU8 v.payload
    → read_payload v.sequence v.timestamp_us v.packet_type v.severity
        (key_payload_hex v.severity ++ (hex_bytes v.payload ++ (34 ∷ rest)))
      ≡ v
unfolding read_payload
read_payload_lem v rest h =
    with_payload v _ (payload_field (key_payload_hex v.severity) v.payload rest h)

-- A line of `record_to_json` determines its record, when the payload consists of bytes: a reader
-- that knows the keys and the names gets back every field.
pub read_line-record_to_json :
    (v : RecordV1) → All IsU8 v.payload → read_line (record_to_json (v1 v)) ≡ v
unfolding read_line read_timestamp read_type read_severity read_payload record_to_json
read_line-record_to_json v h =
    let end = key_payload_len ++ (decimal (length v.payload) ++ codes "}") in
    let after_severity = key_payload_hex v.severity ++ (hex_bytes v.payload ++ (34 ∷ end)) in
    let after_type = key_severity v.packet_type ++ (decimal v.severity ++ after_severity) in
    let after_timestamp = key_type ++ (decimal v.packet_type ++ after_type) in
    let after_seq = key_ts_us ++ (decimal v.timestamp_us ++ after_timestamp) in
    ap {A = ℕ × List ℕ} (λ r. read_timestamp r.0 r.1)
      (number_field key_seq v.sequence after_seq (inl (omega arith)))
    ∙ ap {A = ℕ × List ℕ} (λ r. read_type v.sequence r.0 r.1)
        (number_field key_ts_us v.timestamp_us after_timestamp (inl (omega arith)))
    ∙ ap {A = ℕ × List ℕ} (λ r. read_severity v.sequence v.timestamp_us r.0 r.1)
        (number_field key_type v.packet_type after_type (inl (omega arith)))
    ∙ ap {A = ℕ × List ℕ} (λ r. read_payload v.sequence v.timestamp_us v.packet_type r.0 r.1)
        (number_field (key_severity v.packet_type) v.severity after_severity (inl (omega arith)))
    ∙ read_payload_lem v end h
