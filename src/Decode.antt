-- ===== src/Decode.antt =====
-- tools/telemetry-decode/src/main.rs: the decoder of segment files.
pub mod Counts
pub mod Text
pub mod Json
pub mod Report
pub mod Directory
pub mod Main
pub mod Files
pub mod Passing
pub mod Output
use Prim.Native.String.{String}
use rust_telemetry_logger.Prelude.{
  ℕ, zero, suc, ◌+◌, Bool, true, false, not, ◌&&◌, List, [], ◌∷◌, ◌++◌, Option, none, some, ltb,
  ◌==◌, length, if◌then◌else◌, is_empty, add_u64, Result, ok, err, replicate,
}
use rust_telemetry_logger.Error.{Error}
use rust_telemetry_logger.Filter.{contains}
use rust_telemetry_logger.Record.{StoredRecord, v1, RecordV1}

pub data Format : Type 0 where
  table json ndjson : Format

pub record DecodeStats : Type 0 where
  pub total_seen : ℕ
  pub decode_errors : ℕ
  pub passed_filter : ℕ
  pub by_type : List ℕ
  pub by_severity : List ℕ

-- `Default`
abbrev pub default_stats : DecodeStats
default_stats = record {
  total_seen = 0;
  decode_errors = 0;
  passed_filter = 0;
  by_type = replicate 6 0;
  by_severity = replicate 5 0;
}

-- `if i < counts.len() { counts[i] += 1 }`
unfoldable pub bump : List ℕ → ℕ → List ℕ
bump [] i = []
bump (c ∷ cs) zero = add_u64 c 1 ∷ cs
bump (c ∷ cs) (suc i) = c ∷ bump cs i

unfoldable pub record_seen : DecodeStats → Bool → DecodeStats
record_seen s was_ok =
    let s' : DecodeStats = record s { total_seen = add_u64 s.total_seen 1 } in
    if not was_ok then record s' { decode_errors = add_u64 s'.decode_errors 1 } else s'

unfoldable pub record_passed : DecodeStats → ℕ → ℕ → DecodeStats
record_passed s ptype severity = record s {
  passed_filter = add_u64 s.passed_filter 1;
  by_type = bump s.by_type ptype;
  by_severity = bump s.by_severity severity;
}

-- `--since`, `--min-severity` and `--type`.
pub record Selection : Type 0 where
  pub since : Option ℕ
  pub min_severity : ℕ
  pub packet_types : List ℕ

unfoldable pub is_before : Option ℕ → ℕ → Bool
is_before none sequence = false
is_before (some since_seq) sequence = ltb sequence since_seq

unfoldable pub passes_filter : StoredRecord → Selection → Bool
passes_filter (v1 v) sel =
    if is_before sel.since v.sequence
    then false
    else if ltb v.severity sel.min_severity
    then false
    else if not (is_empty sel.packet_types) && not (contains sel.packet_types v.packet_type)
    then false
    else true

unfoldable pub type_name : ℕ → String
type_name raw =
    if raw == 0x01
    then "Heartbeat"
    else if raw == 0x02
    then "SensorData"
    else if raw == 0x03
    then "Event"
    else if raw == 0x04
    then "Diagnostic"
    else if raw == 0x05
    then "Control"
    else "Unknown"

unfoldable pub severity_name : ℕ → String
severity_name raw =
    if raw == 0x00
    then "Debug"
    else if raw == 0x01
    then "Info"
    else if raw == 0x02
    then "Warning"
    else if raw == 0x03
    then "Error"
    else if raw == 0x04
    then "Fatal"
    else "Unknown"

-- What `main` has so far: the statistics and the records that it shows, in order. Each format
-- shows the same records: as rows, or each one by `record_to_json`.
pub record Decoding : Type 0 where
  pub stats : DecodeStats
  pub shown : List StoredRecord

-- A record that was decoded.
unfoldable pub show : Selection → Decoding → StoredRecord → Decoding
show sel d (v1 v) = if not (passes_filter (v1 v) sel) then d else record {
  stats = record_passed d.stats v.packet_type v.severity;
  shown = d.shown ++ (v1 v ∷ []);
}

-- The loop over the results of one file.
unfoldable pub decode_results : Selection → Decoding → List (Result StoredRecord Error) → Decoding
decode_results sel d [] = d
decode_results sel d (err e ∷ results) =
    decode_results sel (record d { stats = record_seen d.stats false }) results
decode_results sel d (ok r ∷ results) =
    decode_results sel (show sel (record d { stats = record_seen d.stats true }) r) results

-- The loop over the files; `none` is a file that cannot be read, which is skipped.
unfoldable pub decode_files :
    Selection → Decoding → List (Option (List (Result StoredRecord Error))) → Decoding
decode_files sel d [] = d
decode_files sel d (none ∷ files) = decode_files sel d files
decode_files sel d (some results ∷ files) = decode_files sel (decode_results sel d results) files
