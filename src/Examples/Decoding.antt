-- ===== src/Examples/Decoding.antt =====
-- The theorems on the decoder's texts, at one record.
use rust_telemetry_logger.Prelude.{ℕ, ◌≡◌, refl, arith, true, codes, decimal_from, hex_bytes}
use rust_telemetry_logger.Decode.{type_name, severity_name}
use rust_telemetry_logger.Decode.Directory.{is_segment_name}
use rust_telemetry_logger.Decode.Json.{read_line, read_line-record_to_json}
use rust_telemetry_logger.Decode.Text.{record_to_json, payload_preview, spaced_hex}
use rust_telemetry_logger.Examples.Values.{reading}
use rust_telemetry_logger.FileStorage.Names.{segment_name, segment_name-is_segment_name}
use rust_telemetry_logger.Record.{RecordV1, v1}

abbrev shown : RecordV1
shown = record {
  timestamp_us = 1000;
  sequence = 7;
  packet_type = 2;
  severity = 1;
  payload = reading;
}

json_line :
    record_to_json (v1 shown)
    ≡ codes
        "{\"seq\":7,\"ts_us\":1000,\"type\":2,\"type_name\":\"SensorData\",\"severity\":1,\"severity_name\":\"Info\",\"payload_hex\":\"00aa00\",\"payload_len\":3}"
unfolding record_to_json decimal_from type_name severity_name hex_bytes
json_line = refl

preview : payload_preview reading ≡ codes "00 aa 00"
unfolding payload_preview spaced_hex
preview = refl

read_line-record_to_json_example : read_line (record_to_json (v1 shown)) ≡ shown
read_line-record_to_json_example =
    read_line-record_to_json shown (omega arith, (omega arith, (omega arith, tt)))

segment_name-is_segment_name_example :
    (is_segment_name (segment_name 12) ≡ true)
    × ((j : ℕ) → segment_name 12 ≡ segment_name j → 12 ≡ j)
segment_name-is_segment_name_example = segment_name-is_segment_name 12
