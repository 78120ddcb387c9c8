-- ===== src/Decode/Main.antt =====
-- tools/telemetry-decode/src/main.rs: `main`.
use rust_telemetry_logger.Prelude.{
  ℕ, Bool, List, [], ◌∷◌, ◌++◌, map, Option, none, some, Run, ret, ◌>>=◌, if◌then◌else◌, is_empty,
  Result, ok, err, codes,
}
use rust_telemetry_logger.Decode.{
  Format, table, json, ndjson, Selection, Decoding, default_stats, decode_files,
}
use rust_telemetry_logger.Decode.Directory.{collect_segments_in_dir}
use rust_telemetry_logger.Decode.Report.{stats_lines}
use rust_telemetry_logger.Decode.Text.{record_to_json, table_row}
use rust_telemetry_logger.Error.{Error}
use rust_telemetry_logger.External.Cobs.{Cobs}
use rust_telemetry_logger.External.Crc.{Crc}
use rust_telemetry_logger.External.Paths.{Paths}
use rust_telemetry_logger.External.Postcard.{Postcard}
use rust_telemetry_logger.Record.{StoredRecord}
use rust_telemetry_logger.Segment.{read_segment}

-- `Args`, with the three options of the filter as a `Selection`.
pub record Args (P : Type 0) : Type 0 where
  pub files : List P
  pub in_dir : Option P
  pub format : Format
  pub selection : Selection
  pub stats : Bool

-- How the program ends: its exit status, the lines on its standard output, and those of its
-- standard error that are no warnings or errors.
pub record Exit : Type 0 where
  pub status : ℕ
  pub out : List (List ℕ)
  pub notes : List (List ℕ)

-- `json_records.join(",\n ")`
unfoldable pub join_json : List (List ℕ) → List ℕ
join_json [] = []
join_json (line ∷ []) = line
join_json (line ∷ (next ∷ lines)) = line ++ (codes ",\n " ++ join_json (next ∷ lines))

abbrev pub header : List (List ℕ)
header =
    codes "Seq" ∷ codes "Timestamp (μs)" ∷ codes "Type" ∷ codes "Severity" ∷ codes "Payload" ∷ []

abbrev pub usage_error : Exit
usage_error = record { status = 1; out = []; notes = [] }

module _ {P E : Type 0} (paths : Paths P E) (postcard : Postcard StoredRecord) (crc32 : Crc)
    (cobs : Cobs) where
  -- `print_table`
  unfoldable pub print_table : List StoredRecord → List (List ℕ) × List (List ℕ)
  print_table records =
      if is_empty records
      then ([], codes "(no records match the filter)" ∷ [])
      else (paths.render header (map table_row records) ∷ [], [])

  -- The standard output, and the note of an empty table.
  unfoldable pub print_records : Format → List StoredRecord → List (List ℕ) × List (List ℕ)
  print_records table records = print_table records
  print_records json records =
      ((codes "[" ++ (join_json (map record_to_json records) ++ codes "]")) ∷ [], [])
  print_records ndjson records = (map record_to_json records, [])

  -- `read_segment_file`
  unfoldable pub read_segment_file : P → Run (Option (List (Result StoredRecord Error)))
  read_segment_file path = elim (paths.read path) [
    | err e ↦ ret none
    | ok bytes ↦ read_segment postcard crc32 cobs bytes >>= λ results. ret (some results)
  ]

  unfoldable pub read_files : List P → Run (List (Option (List (Result StoredRecord Error))))
  read_files [] = ret []
  read_files (path ∷ files) =
      let rest = read_files files in
      read_segment_file path >>= λ file. rest >>= λ others. ret (file ∷ others)

  -- From the paths on.
  unfoldable pub decode_paths : Args P → List P → Run Exit
  decode_paths args found =
      if is_empty found
      then ret usage_error
      else (read_files (paths.sort found) >>= λ files.
          let start : Decoding = record { stats = default_stats; shown = [] } in
          let d = decode_files args.selection start files in
          let (out, notes) = print_records args.format d.shown in
          ret (record {
            status = 0;
            out = out;
            notes = notes ++ (if args.stats then stats_lines d.stats else []);
          }))

  unfoldable pub main : Args P → Run Exit
  main args = elim args.in_dir [
    | none ↦ decode_paths args args.files
    | some dir ↦ elim (collect_segments_in_dir paths dir) [
      | err e ↦ ret usage_error
      | ok found ↦ decode_paths args (args.files ++ found)
    ]
  ]
