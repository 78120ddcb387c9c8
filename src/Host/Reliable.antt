-- ===== src/Host/Reliable.antt =====
-- `run_loop` over storage that never fails.
use rust_telemetry_logger.Prelude.{
  ℕ, ◌<◌, ◌≡◌, ◌∙◌, arith, Bool, List, [], refl, ret, All, IsU8, IsU64, Result, ok,
}
use rust_telemetry_logger.External.Cobs.{CobsLaws}
use rust_telemetry_logger.External.Heapless.{DequeLaws, ByteVecLaws}
use rust_telemetry_logger.Host.{HostState, HostError, print_round, round, run_loop}
use rust_telemetry_logger.Host.Loop.{
  IsFinite, print_round_keeps, settled, round-settled, run_loop_keeps, end_loop-pipeline,
}
use rust_telemetry_logger.Pipeline.{Crates, default_max_frame, host_queue_depth}
use rust_telemetry_logger.Pipeline.Drain.{drained_succeeds}
use rust_telemetry_logger.Pipeline.Stored.{IsRunning, ingest_from-failures}
use rust_telemetry_logger.Record.Format.{PostcardLaws}
use rust_telemetry_logger.Traits.{PacketSource, Storage, Clock}

module _ (x : Crates) (k : CobsLaws x.cobs) (pl : PostcardLaws x.postcard) (dl : DequeLaws x.deque)
    {S T E W : Type 0} (packets : PacketSource S E) (backend : Storage T W) (clock : Clock)
    (stats_interval : ℕ) (writes : (t : T) (bytes : List ℕ) → (backend.write t bytes).0 ≡ ok tt)
    (flushes : (t : T) → (backend.flush t).0 ≡ ok tt) where
  -- Between rounds.
  abbrev pub Succeeds : HostState S T → Type 0
  Succeeds h = IsRunning default_max_frame h.pipeline × (h.pipeline.stats.write_fail ≡ 0)

  round-Succeeds :
      (vl : ByteVecLaws x.vec) (bytes : List ℕ) (h : HostState S T)
      → ((n : ℕ) → IsU64 (clock.now n))
      → All IsU8 bytes
      → Succeeds h
      → (h' : HostState S T) × (round x packets backend clock stats_interval h bytes ≡ ret h')
        × (h'.source ≡ h.source)
        × Succeeds h'
  round-Succeeds vl bytes h c b (running, none_failed) =
      let (p, run, good, failures) =
        ingest_from-failures x dl default_max_frame host_queue_depth (omega arith) vl k h.instant
          clock bytes h.pipeline c b running in
      let g = settled x k pl dl packets backend clock stats_interval h bytes p in
      let (source, pipeline, _, _) =
        print_round_keeps x k pl dl packets backend clock stats_interval g in
      let drained_all =
        drained_succeeds x k pl dl default_max_frame host_queue_depth backend p.ringbuf.queue p
          h.storage 0 writes flushes in
      let same = pipeline ∙ drained_all in
      (
        print_round x packets backend clock stats_interval g,
        round-settled x k pl dl packets backend clock stats_interval h bytes p run good.queue,
        source,
        (rw same (record { framer = good.framer; queue = tt }), rw same (failures ∙ none_failed)),
      )

  pub run_loop-Succeeds :
      (vl : ByteVecLaws x.vec) (is_end : E → Bool) (n fuel : ℕ) (h : HostState S T)
      → ((n : ℕ) → IsU64 (clock.now n))
      → IsFinite packets n h.source
      → n < fuel
      → Succeeds h
      → (result : Result (Unit {0}) (HostError E W)) × (h' : HostState S T) × (run_loop x packets
            backend clock stats_interval is_end fuel h
          ≡ ret (result, h'))
        × Succeeds h'
  run_loop-Succeeds vl is_end n fuel h c f enough start =
      run_loop_keeps x k pl dl packets backend clock stats_interval is_end (λ m bs g. Succeeds g) n
        (λ m bs g s r. r) (λ m bs bytes g small b r. round-Succeeds vl bytes g c b r)
        (λ m bs g r.
          let same = end_loop-pipeline x k pl dl packets backend clock stats_interval g in
          (rw same r.0, rw same r.1))
        n fuel 0 [] h h.source f refl enough (omega arith) start
