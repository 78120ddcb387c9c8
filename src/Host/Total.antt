-- ===== src/Host/Total.antt =====
-- The host program ends, whatever its source is.
use rust_telemetry_logger.Prelude.{
  ℕ, ◌≤◌, ◌<◌, ◌≡◌, refl, arith, Bool, List, [], map, Run, ret, inl, inr, IsU64, Bool-cases,
  Option-cases, Result-cases, Result, ok, err, codes, same_text, strip_prefix,
}
use rust_telemetry_logger.External.Cobs.{CobsLaws}
use rust_telemetry_logger.External.Files.{Files}
use rust_telemetry_logger.External.Heapless.{ByteVecLaws, DequeLaws}
use rust_telemetry_logger.External.Inputs.{Inputs}
use rust_telemetry_logger.FileStorage
use rust_telemetry_logger.FileStorage.{FileStorage, file_storage}
use rust_telemetry_logger.Framer.Invariant.{IsFramer-new}
use rust_telemetry_logger.Host.{read_source, udp_source, build_filter, HostState}
use rust_telemetry_logger.Host.Loop.{IsFinite, run_loop_total}
use rust_telemetry_logger.Host.Main.{
  Args, Ending, run_source, run_file, run_tcp, run_udp, run_with_source, main, stats_line,
}
use rust_telemetry_logger.Pipeline
use rust_telemetry_logger.Pipeline.{Crates, Pipeline, default_max_frame}
use rust_telemetry_logger.Pipeline.Stored.{IsRunning}
use rust_telemetry_logger.Record.Format.{PostcardLaws}
use rust_telemetry_logger.Traits.{Clock, PacketSource}

module _ (x : Crates) (k : CobsLaws x.cobs) (pl : PostcardLaws x.postcard) (dl : DequeLaws x.deque)
    (vl : ByteVecLaws x.vec) {S E A D F W : Type 0} (inputs : Inputs S E A) (fs : Files D F W)
    (clock : Clock) (is_end : E → Bool) (fuel : ℕ) (c : (n : ℕ) → IsU64 (clock.now n)) where
  -- Every input gives bytes less often than the fuel is, by either way of reading it.
  pub record AllEnd : Type 0 where
    pub reads : (s : S) → (n : ℕ) × (n < fuel) × IsFinite (read_source inputs.read) n s
    pub receives : (s : S) → (n : ℕ) × (n < fuel) × IsFinite (udp_source inputs.recv_from) n s

  abbrev Returns : Run (Ending x inputs fs clock is_end fuel) → Type 0
  Returns r = (e : Ending x inputs fs clock is_end fuel) × (r ≡ ret e)

  run_source_total :
      (packets : PacketSource S E) (n : ℕ) (source : S) (p : Pipeline) (storage : FileStorage F × D)
      (stats_interval : ℕ)
      → n < fuel
      → IsFinite packets n source
      → IsRunning default_max_frame p
      → Returns (run_source x inputs fs clock is_end fuel packets source p storage stats_interval)
  unfolding run_source
  run_source_total packets n source p storage stats_interval enough finite good =
      let h : HostState S (FileStorage F × D) = record {
        source = source;
        pipeline = p;
        storage = storage;
        instant = 0;
        last_print_ok = 0;
        printed = [];
      } in
      let (result, h', run, _) =
        run_loop_total x k pl dl packets (file_storage fs) clock stats_interval vl is_end n fuel h c
          finite enough good in
      elim (Result-cases result) [
        | inl (_, done) ↦ rw (run, run_source) (rw done (_, refl))
        | inr (_, fails) ↦ rw (run, run_source) (rw fails (_, refl))
      ]

  module _ (ends : AllEnd) (p : Pipeline) (storage : FileStorage F × D) (stats_interval : ℕ)
      (good : IsRunning default_max_frame p) where
    read_total :
        (s : S)
        → Returns (
            run_source x inputs fs clock is_end fuel
              (read_source inputs.read)
              s
              p
              storage
              stats_interval)
    read_total s =
        let (n, enough, finite) = ends.reads s in
        run_source_total (read_source inputs.read) n s p storage stats_interval enough finite good

    file_total :
        (path : List ℕ)
        → Returns (run_file x inputs fs clock is_end fuel path p storage stats_interval)
    unfolding run_file
    file_total path = elim (Result-cases (inputs.open_file path)) [
      | inl (f, opened) ↦ rw (opened, run_file) (read_total f)
      | inr (e, fails) ↦ rw (fails, run_file) (_, refl)
    ]

    tcp_total :
        (addr : List ℕ)
        → Returns (run_tcp x inputs fs clock is_end fuel addr p storage stats_interval)
    unfolding run_tcp
    tcp_total addr = elim (Result-cases (inputs.listen addr)) [
      | inr (e, fails) ↦ rw (fails, run_tcp) (_, refl)
      | inl (listener, listens) ↦ elim (Result-cases (inputs.accept listener)) [
        | inl (stream, accepts) ↦ rw (listens, run_tcp) (rw accepts (read_total stream))
        | inr (e, fails) ↦ rw (listens, run_tcp) (rw fails (_, refl))
      ]
    ]

    udp_total :
        (addr : List ℕ)
        → Returns (run_udp x inputs fs clock is_end fuel addr p storage stats_interval)
    unfolding run_udp
    udp_total addr = elim (Result-cases (inputs.bind addr)) [
      | inr (e, fails) ↦ rw (fails, run_udp) (_, refl)
      | inl (socket, binds) ↦
          let (n, enough, finite) = ends.receives socket in
          rw (binds, run_udp)
            (run_source_total (udp_source inputs.recv_from) n socket p storage stats_interval enough
              finite good)
    ]

    run_with_source_total :
        (spec : List ℕ)
        → Returns (run_with_source x inputs fs clock is_end fuel spec p storage stats_interval)
    unfolding run_with_source
    run_with_source_total spec = elim (Bool-cases (same_text spec (codes "-"))) [
      | inl standard ↦ rw standard (read_total inputs.stdin)
      | inr other ↦ elim (Option-cases (strip_prefix (codes "file:") spec)) [
        | inr (path, is_file) ↦ rw (other, is_file) (file_total path)
        | inl no_file ↦ elim (Option-cases (strip_prefix (codes "tcp:") spec)) [
          | inr (addr, is_tcp) ↦ rw (other, no_file, is_tcp) (tcp_total addr)
          | inl no_tcp ↦ elim (Option-cases (strip_prefix (codes "udp:") spec)) [
            | inr (addr, is_udp) ↦ rw (other, no_file, no_tcp, is_udp) (udp_total addr)
            | inl no_udp ↦ rw (other, no_file, no_tcp, no_udp) (_, refl)
          ]
        ]
      ]
    ]

  -- When every input of the host ends, `main` ends without a panic, whatever its arguments, its
  -- disk and the failures on the way are, with exit status 0 or 1. The fuel of the loop exceeds the
  -- reads of every input that give bytes, and the clock shows 64-bit times.
  pub main_total :
      AllEnd
      → (args : Args) (created : Result (Unit {0}) W) (disk : D)
      → (status : ℕ) × (lines : List (List ℕ)) × (disk' : D) × (main x inputs fs clock is_end fuel
            args created disk
          ≡ ret (status, lines, disk'))
        × (status ≤ 1)
  unfolding main
  main_total ends args (err e) disk = (1, [], disk, refl, omega arith)
  main_total ends args (ok u) disk =
      let p = Pipeline.new (build_filter x.vec args.min_severity args.allow_types) in
      let good : IsRunning default_max_frame p = record { framer = IsFramer-new 512; queue = tt } in
      let ((result, printed, storage), run) =
        run_with_source_total ends p (FileStorage.new fs args.segment_size, disk)
          args.stats_interval good args.input in
      elim (Result-cases result) [
        | inl (_, done) ↦ (0, map stats_line printed, storage.1, rw run (rw done refl), omega arith)
        | inr (_, fails) ↦
            (1, map stats_line printed, storage.1, rw run (rw fails refl), omega arith)
      ]
