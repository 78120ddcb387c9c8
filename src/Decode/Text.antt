-- ===== src/Decode/Text.antt =====
-- tools/telemetry-decode/src/main.rs: the text of the records.
use rust_telemetry_logger.Prelude.{
  ℕ, List, [], ◌∷◌, ◌++◌, min, length, take, if◌then◌else◌, ltb, is_empty, codes, decimal, hex_byte,
  hex_bytes,
}
use rust_telemetry_logger.Decode.{type_name, severity_name}
use rust_telemetry_logger.Record.{StoredRecord, v1}

-- `.join(" ")` of the bytes in hex.
unfoldable pub spaced_hex : List ℕ → List ℕ
spaced_hex [] = []
spaced_hex (b ∷ []) = hex_byte b
spaced_hex (b ∷ (c ∷ bs)) = hex_byte b ++ (32 ∷ spaced_hex (c ∷ bs))

unfoldable pub payload_preview : List ℕ → List ℕ
payload_preview payload =
    let shown = min (length payload) 8 in
    let hex = spaced_hex (take shown payload) in
    if ltb 8 (length payload)
    then hex ++ (codes " … (" ++ (decimal (length payload) ++ codes " bytes)"))
    else if is_empty payload
    then codes "(empty)"
    else hex

-- `record_to_json`: the keys with their punctuation, and the values.
abbrev pub key_seq : List ℕ
key_seq = codes "{\"seq\":"

abbrev pub key_ts_us : List ℕ
key_ts_us = codes ",\"ts_us\":"

abbrev pub key_type : List ℕ
key_type = codes ",\"type\":"

abbrev pub key_severity : ℕ → List ℕ
key_severity packet_type =
    codes ",\"type_name\":\"" ++ (codes (type_name packet_type) ++ codes "\",\"severity\":")

abbrev pub key_payload_hex : ℕ → List ℕ
key_payload_hex severity =
    codes ",\"severity_name\":\""
    ++ (codes (severity_name severity) ++ codes "\",\"payload_hex\":\"")

-- Behind the quote that ends the payload.
abbrev pub key_payload_len : List ℕ
key_payload_len = codes ",\"payload_len\":"

unfoldable pub record_to_json : StoredRecord → List ℕ
record_to_json (v1 v) =
    key_seq
    ++ (decimal v.sequence
        ++ (key_ts_us
            ++ (decimal v.timestamp_us
                ++ (key_type
                    ++ (decimal v.packet_type
                        ++ (key_severity v.packet_type
                            ++ (decimal v.severity
                                ++ (key_payload_hex v.severity
                                    ++ (hex_bytes v.payload
                                        ++ (34
                                            ∷ (key_payload_len
                                                ++ (decimal (length v.payload)
                                                    ++ codes "}"))))))))))))

-- The rows of `print_table`, without the header: a cell for each column.
unfoldable pub table_row : StoredRecord → List (List ℕ)
table_row (v1 v) =
    decimal v.sequence
    ∷ decimal v.timestamp_us
    ∷ (hex_byte v.packet_type ++ (codes " (" ++ (codes (type_name v.packet_type) ++ codes ")")))
    ∷ (hex_byte v.severity ++ (codes " (" ++ (codes (severity_name v.severity) ++ codes ")")))
    ∷ payload_preview v.payload
    ∷ []
