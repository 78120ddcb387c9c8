-- ===== src/EndToEnd/Logger.antt =====
-- The host (crates/telemetry-host/src/main.rs) writes segment files (crates/telemetry-std/src/lib.rs),
-- and the decoder (tools/telemetry-decode/src/main.rs) reads their directory.
use rust_telemetry_logger.Prelude.{
  ℕ, ap, ◌*◌, ◌≤◌, ◌<◌, ◌^◌, ◌≡◌, ◌⊎◌, subst, arith, Bool, List, [], ◌∷◌, some, inl, inr, map,
  length, All, IsU64, Result, ok, ret,
}
use rust_telemetry_logger.Decode.{Format, Selection}
use rust_telemetry_logger.Decode.Main.{main}
use rust_telemetry_logger.Decode.Output.{Prints}
use rust_telemetry_logger.EndToEnd.Archive.{segments, IsNamed, main-Holds}
use rust_telemetry_logger.External.Cobs.{CobsLaws}
use rust_telemetry_logger.External.Crc.{CrcLaws}
use rust_telemetry_logger.External.Files.{Files, FilesLaws}
use rust_telemetry_logger.External.Heapless.{DequeLaws, ByteVecLaws}
use rust_telemetry_logger.External.Paths.{Paths}
use rust_telemetry_logger.FileStorage
use rust_telemetry_logger.FileStorage.{FileStorage, file_storage}
use rust_telemetry_logger.FileStorage.Groups.{in_order, IsFitting}
use rust_telemetry_logger.FileStorage.Reliable.{IsReliable, write_succeeds, flush_succeeds}
use rust_telemetry_logger.FileStorage.Segments.{ReadsBack, OnDisk-ReadsBack}
use rust_telemetry_logger.Filter.{FilterConfig}
use rust_telemetry_logger.Host.{HostState, HostError, run_loop}
use rust_telemetry_logger.Host.Archive.{Logs}
use rust_telemetry_logger.Host.Logged.{run_loop-Logs}
use rust_telemetry_logger.Host.Follows.{Accounts, Follows-Accounts, Accounts-IsStoredRecord}
use rust_telemetry_logger.Host.Loop.{IsFinite, given}
use rust_telemetry_logger.Host.Reliable.{run_loop-Succeeds}
use rust_telemetry_logger.Framer.Invariant.{IsFramer-new}
use rust_telemetry_logger.Pipeline
use rust_telemetry_logger.Pipeline.{Crates, Pipeline, default_max_frame, host_queue_depth}
use rust_telemetry_logger.Record.{StoredRecord}
use rust_telemetry_logger.Record.Format.{PostcardLaws}
use rust_telemetry_logger.Traits.{PacketSource, Clock}

module _ (x : Crates) (k : CobsLaws x.cobs) (pl : PostcardLaws x.postcard) (dl : DequeLaws x.deque)
    (vl : ByteVecLaws x.vec) (crcl : CrcLaws (2 ^ 32) x.crc32) {S E D F W : Type 0}
    {fs : Files D F W} (l : FilesLaws fs) (packets : PacketSource S E) (clock : Clock)
    (stats_interval limit : ℕ) (is_end : E → Bool) (filter : FilterConfig) where
  -- No more records than `ok` can count.
  ok_exact :
      (rs : List StoredRecord) (n start : ℕ) (bytes : List ℕ) (p : Pipeline)
      → Accounts x filter clock start bytes rs p
      → length rs ≤ n * 64
      → n * 64 < 2 ^ 32
      → p.stats.ok ≡ length rs
  ok_exact rs n start bytes p w few small = omega (arith, w.ok_counts)

  -- Behind a run that counted a failed write.
  fails_somewhere :
      (n fuel : ℕ) (h h' : HostState S (FileStorage F × D))
      (result : Result (Unit {0}) (HostError E W))
      → ((n : ℕ) → IsU64 (clock.now n))
      → IsFinite packets n h.source
      → n < fuel
      → h.pipeline ≡ Pipeline.new filter
      → run_loop x packets (file_storage fs) clock stats_interval is_end fuel h ≡ ret (result, h')
      → 0 < h'.pipeline.stats.write_fail
      → ¬ IsReliable fs
  unfolding file_storage
  fails_somewhere n fuel h h' result c f enough fresh run counted reliable =
      let (result', last, run', (_, unfailed)) =
        run_loop-Succeeds x k pl dl packets (file_storage fs) clock stats_interval
          (λ t bytes. write_succeeds reliable t.0 t.1 bytes) (λ t. flush_succeeds reliable t.0 t.1)
          vl is_end n fuel h c f enough
          (
            record { framer = rw fresh (IsFramer-new default_max_frame); queue = rw fresh tt },
            ap (λ p. p.stats.write_fail) fresh,
          ) in
      let same : last ≡ h' = cc (run, run') in
      omega (arith, counted, ap (λ g. g.pipeline.stats.write_fail) same, unfailed)

  -- A new pipeline over a source from which `n` reads give any bytes, `n * 64` below 2 ^ 32, with new
  -- segment files on a disk that holds anything and may fail: the loop ends without a panic, and it
  -- has counted a failed write, on a disk of which not all calls succeed, or each segment file reads,
  -- without an error, as one of some groups of records, from the first segment to the last. Each
  -- group stays within the limit or is a single record. Together they are, in order, the records of
  -- those complete frames among a new framer's outputs for all the bytes that the source gave, each
  -- with the time of its delimiter, that are sound, follow in sequence the sound frame before, pass
  -- the filter and were not dropped by the full queue; `stats.ok` counts them, and `stats.dropped`
  -- the dropped ones modulo 2 ^ 64. The fuel of the loop exceeds `n`, and the clock shows 64-bit
  -- times.
  pub run_loop-ReadsBack :
      (n fuel : ℕ) (h : HostState S (FileStorage F × D)) (d : D)
      → ((n : ℕ) → IsU64 (clock.now n))
      → (f : IsFinite packets n h.source) → n < fuel
      → n * 64 < 2 ^ 32
      → h.pipeline ≡ Pipeline.new filter
      → h.storage ≡ (FileStorage.new fs limit, d)
      → (result : Result (Unit {0}) (HostError E W)) × (h' : HostState S (FileStorage F × D))
        × (run_loop x packets (file_storage fs) clock stats_interval is_end fuel h
            ≡ ret (result, h'))
        × (((0 < h'.pipeline.stats.write_fail) × (¬ IsReliable fs))
            ⊎ ((gs : List (List StoredRecord)) × All (IsFitting x k pl limit) gs
                × Accounts x filter clock h.instant (given packets f) (in_order gs) h'.pipeline
                × (h'.pipeline.stats.ok ≡ length (in_order gs))
                × (h'.storage.0.segment_index ≡ length gs)
                × ReadsBack x k pl l h'.storage.1 gs))
  run_loop-ReadsBack n fuel h d c f enough small fresh opened =
      let (result, h', run, logs) =
        run_loop-Logs x k pl dl l packets clock stats_interval limit vl is_end filter n fuel h d c f
          enough small fresh opened in
      (
        result,
        h',
        run,
        elim logs [
          | inr w ↦ inl (w.failed, fails_somewhere n fuel h h' result c f enough fresh run w.failed)
          | inl (gs, w, _, few) ↦
              let bytes = given packets f in
              let accounts =
                Follows-Accounts x filter clock h.instant 0 (in_order gs) bytes h' w.follows in
              inr (
                gs,
                w.fitting,
                accounts,
                ok_exact (in_order gs) n h.instant bytes h'.pipeline accounts few small,
                w.holds.index,
                OnDisk-ReadsBack x k pl l crcl gs h'.storage.1 w.holds.files (
                    Accounts-IsStoredRecord x filter clock h.instant (in_order gs) bytes h'.pipeline
                      c accounts),
              )
        ],
      )

  module _ {P : Type 0} (paths : Paths ℕ P) where
    -- A new pipeline over a source from which `n` reads give any bytes, `n * 64` below 2 ^ 32, with
    -- new segment files. When the loop has ended without a failed write, and a directory lists
    -- exactly the segment files, at least one, in an order that sorting brings into theirs: the
    -- decoder of the directory exits with status 0 and prints, in its format and in order, those that
    -- pass its selection of the following records, which `stats.ok` counts. They are the records of
    -- those complete frames among a new framer's outputs for all the bytes that the source gave, each
    -- with the time of its delimiter, that are sound, follow in sequence the sound frame before, pass
    -- the filter and were not dropped by the full queue; `stats.dropped` counts the dropped ones
    -- modulo 2 ^ 64. The fuel of the loop exceeds `n`, the clock shows 64-bit times, the directory's
    -- entries have the file names that the segment writer gives them, and reading the file of a
    -- segment gives what the disk holds.
    pub main-run_loop :
        (n fuel : ℕ) (h h' : HostState S (FileStorage F × D)) (d : D)
        (result : Result (Unit {0}) (HostError E W)) (dir i : ℕ) (found : List ℕ) (format : Format)
        (selection : Selection) (stats : Bool)
        → ((n : ℕ) → IsU64 (clock.now n))
        → (f : IsFinite packets n h.source) → n < fuel
        → n * 64 < 2 ^ 32
        → h.pipeline ≡ Pipeline.new filter
        → h.storage ≡ (FileStorage.new fs limit, d)
        → run_loop x packets (file_storage fs) clock stats_interval is_end fuel h ≡ ret (result, h')
        → h'.pipeline.stats.write_fail ≡ 0
        → ((j : ℕ)
            → 1 ≤ j
            → j ≤ h'.storage.0.segment_index
            → paths.read j ≡ ok (l.contents h'.storage.1 j))
        → All (IsNamed paths) (i ∷ found)
        → paths.read_dir dir ≡ ok (map (λ j. ok j) (i ∷ found))
        → paths.sort (i ∷ found) ≡ segments h'.storage.0.segment_index
        → (rs : List StoredRecord) × Accounts x filter clock h.instant
            (given packets f)
            rs
            h'.pipeline
          × (h'.pipeline.stats.ok ≡ length rs)
          × Prints x k pl paths
              (main paths x.postcard x.crc32 x.cobs (record {
                files = [];
                in_dir = some dir;
                format = format;
                selection = selection;
                stats = stats;
              }))
              format
              selection
              rs
    main-run_loop n fuel h h' d result dir i found format selection stats c f enough small fresh
          opened ran unfailed reads named entries sorted =
        let (result', last, run, logs) =
          run_loop-Logs x k pl dl l packets clock stats_interval limit vl is_end filter n fuel h d c
            f enough small fresh opened in
        let same : last ≡ h' = cc (ran, run) in
        let bytes = given packets f in
        elim (subst (Logs x k pl dl l packets clock stats_interval limit filter h.instant n bytes)
          same logs) [
            | inr w ↦ absurd (omega (arith, unfailed, w.failed))
            | inl (gs, w, _, few) ↦
                let accounts =
                  Follows-Accounts x filter clock h.instant 0 (in_order gs) bytes h' w.follows in
                (
                  in_order gs,
                  accounts,
                  ok_exact (in_order gs) n h.instant bytes h'.pipeline accounts few small,
                  main-Holds x k pl paths dl crcl default_max_frame host_queue_depth l limit gs
                      h'.storage.0 h'.storage.1 dir i found format selection stats w.holds
                      (Accounts-IsStoredRecord x filter clock h.instant (in_order gs) bytes
                        h'.pipeline c accounts)
                      (omega (arith, few)) reads named entries sorted,
                )
          ]
