-- ===== src/Decode/Output.antt =====
-- What the decoder prints of segment files.
use mathlib.Core.List.{flatten, map-append}
use rust_telemetry_logger.Prelude.{
  ℕ, suc, ◌<◌, ◌^◌, ◌≡◌, ◌∙◌, ap, sym, refl, arith, List, [], ◌∷◌, ◌++◌, map, length, some, Result,
  ok, ret, Run, All, if◌then◌else◌,
}
use rust_telemetry_logger.Decode.{Format, Selection, Decoding, default_stats, decode_files}
use rust_telemetry_logger.Decode.Counts.{selected}
use rust_telemetry_logger.Decode.Files.{results_of, decode_files-IsTally}
use rust_telemetry_logger.Decode.Main.{
  Args, Exit, print_records, read_segment_file, read_files, decode_paths,
}
use rust_telemetry_logger.Decode.Report.{stats_lines}
use rust_telemetry_logger.Error.{Error}
use rust_telemetry_logger.External.Cobs.{CobsLaws}
use rust_telemetry_logger.External.Crc.{CrcLaws}
use rust_telemetry_logger.External.Paths.{Paths}
use rust_telemetry_logger.Pipeline.{Crates}
use rust_telemetry_logger.Pipeline.Bytes.{stored_all}
use rust_telemetry_logger.Record.{StoredRecord, IsStoredRecord}
use rust_telemetry_logger.Record.Format.{PostcardLaws}
use rust_telemetry_logger.Segment.Read.{read_segment_exact}

results_of-flatten :
    (gs : List (List StoredRecord))
    → results_of (map (λ g. some (map (λ r. ok r) g)) gs) ≡ map (λ r. ok r) (flatten gs)
unfolding results_of flatten
results_of-flatten [] = refl
results_of-flatten (g ∷ gs) =
    ap (λ l. map (λ r. ok r) g ++ l) (results_of-flatten gs)
    ∙ sym (map-append (λ r. ok r) g (flatten gs))

length-map_ok :
    (rs : List StoredRecord)
    → length (map {B = Result StoredRecord Error} (λ r. ok r) rs) ≡ length rs
length-map_ok [] = refl
length-map_ok (r ∷ rs) = ap suc (length-map_ok rs)

module _ (x : Crates) (k : CobsLaws x.cobs) (pl : PostcardLaws x.postcard) {P E : Type 0}
    (paths : Paths P E) where
  -- Files that hold these groups of well-formed records.
  abbrev pub IsArchive : List P → List (List StoredRecord) → Type 0
  IsArchive [] [] = Unit
  IsArchive [] (g ∷ gs) = ⊥
  IsArchive (path ∷ files) [] = ⊥
  IsArchive (path ∷ files) (g ∷ gs) =
      (paths.read path ≡ ok (stored_all x k pl g)) × All IsStoredRecord g × IsArchive files gs

  -- The decoder ends with status 0 and prints, in this format, those of the records that pass the
  -- filter, in order.
  abbrev pub Prints : Run Exit → Format → Selection → List StoredRecord → Type 0
  Prints run format selection rs =
      (notes : List (List ℕ)) × (run
        ≡ ret (record {
          status = 0;
          out =
              (print_records paths x.postcard x.crc32 x.cobs format
                (selected selection (map (λ r. ok r) rs))).0;
          notes = notes;
        }))

  module _ (crcl : CrcLaws (2 ^ 32) x.crc32) where
    reads_group :
        (path : P) (g : List StoredRecord)
        → paths.read path ≡ ok (stored_all x k pl g)
        → All IsStoredRecord g
        → read_segment_file paths x.postcard x.crc32 x.cobs path ≡ ret (some (map (λ r. ok r) g))
    unfolding read_segment_file
    reads_group path g contents good =
        rw (contents, read_segment_file) (rw (read_segment_exact x k pl crcl g good) refl)

    read_files-archive :
        (files : List P) (gs : List (List StoredRecord))
        → IsArchive files gs
        → read_files paths x.postcard x.crc32 x.cobs files
          ≡ ret (map (λ g. some (map (λ r. ok r) g)) gs)
    unfolding read_files
    read_files-archive [] [] h = refl
    read_files-archive [] (g ∷ gs) h = absurd h
    read_files-archive (path ∷ files) [] h = absurd h
    read_files-archive (path ∷ files) (g ∷ gs) (contents, good, h) =
        rw (reads_group path g contents good, read_files) (rw (read_files-archive files gs h) refl)

    -- For files that hold groups of well-formed records, fewer than 2 ^ 64 of them, the decoder exits
    -- with status 0 and prints, in its format, exactly the records that pass the filter, in the
    -- order of the files and of the records in them. There is at least one file.
    pub decode_paths-archive :
        (args : Args P) (path : P) (found : List P) (gs : List (List StoredRecord))
        → IsArchive (paths.sort (path ∷ found)) gs
        → length (flatten gs) < 2 ^ 64
        → Prints
            (decode_paths paths x.postcard x.crc32 x.cobs args (path ∷ found))
            args.format
            args.selection
            (flatten gs)
    unfolding decode_paths
    decode_paths-archive args path found gs h small =
        let files = map (λ g. some (map (λ r. ok r) g)) gs in
        let results = results_of-flatten gs in
        let start : Decoding = record { stats = default_stats; shown = [] } in
        let tally =
          decode_files-IsTally args.selection files start
            (omega (arith, ap length results, length-map_ok (flatten gs))) (omega arith)
            (omega arith) in
        let d = decode_files args.selection start files in
        let shown : d.shown ≡ selected args.selection (map (λ r. ok r) (flatten gs)) =
          tally.shown ∙ ap (selected args.selection) results in
        let print = print_records paths x.postcard x.crc32 x.cobs args.format in
        let notes = (print d.shown).1 ++ (if args.stats then stats_lines d.stats else []) in
        (
          notes,
          rw (read_files-archive (paths.sort (path ∷ found)) gs h) (
              ap {A = List StoredRecord} {B = Run Exit}
                (λ rs. ret (record { status = 0; out = (print rs).0; notes = notes })) shown),
        )
