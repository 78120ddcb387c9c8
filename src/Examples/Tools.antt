-- ===== src/Examples/Tools.antt =====
-- The theorems on the host and on the decoder, at concrete values.
use rust_telemetry_logger.Prelude.{
  ℕ, arith, ◌≡◌, List, [], ◌∷◌, none, some, ok, err, Result, if◌then◌else◌, is_empty, take,
}
use rust_telemetry_logger.Error.{Error, codec}
use rust_telemetry_logger.Decode.{Selection, Decoding, default_stats, decode_results}
use rust_telemetry_logger.Decode.Counts.{IsTally, decode_results-IsTally}
use rust_telemetry_logger.Examples.Containers.{byte_vec, byte_vec-laws}
use rust_telemetry_logger.Examples.Values.{stored_sensor}
use rust_telemetry_logger.Filter.{max_filter_types}
use rust_telemetry_logger.Host.{build_filter}
use rust_telemetry_logger.Host.Allowlist.{build_filter-take}
use rust_telemetry_logger.Record.{StoredRecord}

abbrev many_types : List ℕ
many_types = 1 ∷ 2 ∷ 3 ∷ 4 ∷ 5 ∷ 6 ∷ 7 ∷ 8 ∷ 9 ∷ []

build_filter-take_example : build_filter byte_vec 2 many_types ≡ (
    if is_empty many_types
    then record { min_severity = 2; type_allowlist = none }
    else record { min_severity = 2; type_allowlist = some (take max_filter_types many_types) })
build_filter-take_example = build_filter-take byte_vec-laws 2 many_types

abbrev results : List (Result StoredRecord Error)
results = ok stored_sensor ∷ err codec ∷ []

abbrev since_eight : Selection
since_eight = record { since = some 8; min_severity = 0; packet_types = [] }

abbrev nothing_yet : Decoding
nothing_yet = record { stats = default_stats; shown = [] }

decode_results-IsTally_example :
    IsTally since_eight nothing_yet results (decode_results since_eight nothing_yet results)
decode_results-IsTally_example =
    decode_results-IsTally results since_eight nothing_yet (omega arith) (omega arith) (omega arith)
