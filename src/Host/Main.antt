-- ===== src/Host/Main.antt =====
-- crates/telemetry-host/src/main.rs: the choice of the source, and `main`.
use rust_telemetry_logger.Prelude.{
  ℕ, Bool, List, [], ◌++◌, none, some, Run, ret, ◌>>=◌, if◌then◌else◌, map, Result, ok, err, codes,
  decimal, same_text, strip_prefix,
}
use rust_telemetry_logger.External.Files.{Files}
use rust_telemetry_logger.External.Inputs.{Inputs}
use rust_telemetry_logger.FileStorage
use rust_telemetry_logger.FileStorage.{FileStorage, file_storage}
use rust_telemetry_logger.Host.{
  HostError, HostState, build_filter, read_source, udp_source, run_loop,
}
use rust_telemetry_logger.Pipeline
use rust_telemetry_logger.Pipeline.{Crates, Pipeline}
use rust_telemetry_logger.Stats.{Stats}
use rust_telemetry_logger.Traits.{Clock, PacketSource}

-- `Args`, without the output directory.
pub record Args : Type 0 where
  pub input : List ℕ
  pub segment_size : ℕ
  pub min_severity : ℕ
  pub allow_types : List ℕ
  pub stats_interval : ℕ

-- How `run_with_source` fails.
pub data SourceError (E W : Type 0) : Type 0 where
  start_failed : E → SourceError E W
  loop_failed : HostError E W → SourceError E W
  unrecognised : List ℕ → SourceError E W

-- `print_stats`
unfoldable pub stats_line : Stats → List ℕ
stats_line s =
    codes "stats: ok="
    ++ (decimal s.ok
        ++ (codes " dropped="
            ++ (decimal s.dropped
                ++ (codes " crc_fail="
                    ++ (decimal s.crc_fail
                        ++ (codes " seq_gap="
                            ++ (decimal s.seq_gap
                                ++ (codes " filtered="
                                    ++ (decimal s.filtered
                                        ++ (codes " write_fail="
                                            ++ (decimal s.write_fail
                                                ++ (codes " hwm="
                                                    ++ decimal s.queue_high_water))))))))))))

module _ (x : Crates) {S E A D F W : Type 0} (inputs : Inputs S E A) (fs : Files D F W)
    (clock : Clock) (is_end : E → Bool) (fuel : ℕ) where
  abbrev pub Ending : Type 0
  Ending = Result (Unit {0}) (SourceError E W) × List Stats × (FileStorage F × D)

  -- `run_loop` over an open source, with the statistics that it printed and the storage.
  unfoldable pub run_source : PacketSource S E → S → Pipeline → FileStorage F × D → ℕ → Run Ending
  run_source packets source pipeline storage stats_interval =
      let h : HostState S (FileStorage F × D) = record {
        source = source;
        pipeline = pipeline;
        storage = storage;
        instant = 0;
        last_print_ok = 0;
        printed = [];
      } in
      run_loop x packets (file_storage fs) clock stats_interval is_end fuel h >>= λ r. elim r.0 [
        | err e ↦ ret (err (loop_failed e), r.1.printed, r.1.storage)
        | ok _ ↦ ret (ok tt, r.1.printed, r.1.storage)
      ]

  abbrev stopped : SourceError E W → FileStorage F × D → Run Ending
  stopped e storage = ret (err e, [], storage)

  unfoldable pub run_file : List ℕ → Pipeline → FileStorage F × D → ℕ → Run Ending
  run_file path pipeline storage stats_interval = elim (inputs.open_file path) [
    | err e ↦ stopped (start_failed e) storage
    | ok f ↦ run_source (read_source inputs.read) f pipeline storage stats_interval
  ]

  unfoldable pub run_tcp : List ℕ → Pipeline → FileStorage F × D → ℕ → Run Ending
  run_tcp addr pipeline storage stats_interval = elim (inputs.listen addr) [
    | err e ↦ stopped (start_failed e) storage
    | ok listener ↦ elim (inputs.accept listener) [
      | err e ↦ stopped (start_failed e) storage
      | ok stream ↦ run_source (read_source inputs.read) stream pipeline storage stats_interval
    ]
  ]

  unfoldable pub run_udp : List ℕ → Pipeline → FileStorage F × D → ℕ → Run Ending
  run_udp addr pipeline storage stats_interval = elim (inputs.bind addr) [
    | err e ↦ stopped (start_failed e) storage
    | ok socket ↦ run_source (udp_source inputs.recv_from) socket pipeline storage stats_interval
  ]

  unfoldable pub run_with_source : List ℕ → Pipeline → FileStorage F × D → ℕ → Run Ending
  run_with_source spec pipeline storage stats_interval =
      if same_text spec (codes "-")
      then run_source (read_source inputs.read) inputs.stdin pipeline storage stats_interval
      else elim (strip_prefix (codes "file:") spec) [
        | some path ↦ run_file path pipeline storage stats_interval
        | none ↦ elim (strip_prefix (codes "tcp:") spec) [
          | some addr ↦ run_tcp addr pipeline storage stats_interval
          | none ↦ elim (strip_prefix (codes "udp:") spec) [
            | some addr ↦ run_udp addr pipeline storage stats_interval
            | none ↦ stopped (unrecognised spec) storage
          ]
        ]
      ]

  -- The exit status, the lines of `print_stats`, and the disk afterwards. `created` is
  -- `fs::create_dir_all` of the output directory, with the disk behind it.
  unfoldable pub main : Args → Result (Unit {0}) W → D → Run (ℕ × List (List ℕ) × D)
  main args created disk =
      let pipeline = Pipeline.new (build_filter x.vec args.min_severity args.allow_types) in
      elim created [
        | err e ↦ ret (1, [], disk)
        | ok _ ↦
            run_with_source args.input pipeline (FileStorage.new fs args.segment_size, disk)
              args.stats_interval
            >>= λ r. ret (elim r.0 [ err e ↦ 1 | ok _ ↦ 0 ], map stats_line r.1, r.2.1)
      ]
