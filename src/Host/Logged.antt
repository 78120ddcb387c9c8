-- ===== src/Host/Logged.antt =====
-- `run_loop` into segment files, on a disk that may fail, to its end.
use rust_telemetry_logger.Prelude.{
  ℕ, ◌+◌, ◌*◌, ◌<◌, ◌^◌, ◌≡◌, subst, refl, arith, Bool, List, [], ◌++◌, ret, inl, inr, All, IsU8,
  IsU64, Result, Result-cases,
}
use rust_telemetry_logger.External.Cobs.{CobsLaws}
use rust_telemetry_logger.External.Files.{Files, FilesLaws}
use rust_telemetry_logger.External.Heapless.{DequeLaws, ByteVecLaws}
use rust_telemetry_logger.FileStorage
use rust_telemetry_logger.Pipeline
use rust_telemetry_logger.FileStorage.{FileStorage, file_storage, flush}
use rust_telemetry_logger.FileStorage.Groups.{in_order}
use rust_telemetry_logger.FileStorage.Segments.{flush-Holds, new-Holds}
use rust_telemetry_logger.Filter.{FilterConfig}
use rust_telemetry_logger.Host.{HostState, HostError, print_round, round, end_loop, run_loop}
use rust_telemetry_logger.Host.Archive.{Logs, Logs-same, settled-Archives, settled-HasFailed}
use rust_telemetry_logger.Host.Follows.{
  Follows-new, Follows-same, ingest_from-Ingests, queue-IsStoredRecord,
}
use rust_telemetry_logger.Host.Loop.{
  IsFinite, given, end_loop-instant, print_round_keeps, settled, round-settled, run_loop_keeps,
  end_loop-pipeline,
}
use rust_telemetry_logger.Pipeline.{Crates, Pipeline, new, default_max_frame, host_queue_depth}
use rust_telemetry_logger.Pipeline.Stored.{ingest_from-failures}
use rust_telemetry_logger.Record.Format.{PostcardLaws}
use rust_telemetry_logger.Traits.{PacketSource, Clock}

module _ (x : Crates) (k : CobsLaws x.cobs) (pl : PostcardLaws x.postcard) (dl : DequeLaws x.deque)
    {S E D F W : Type 0} {fs : Files D F W} (l : FilesLaws fs) (packets : PacketSource S E)
    (clock : Clock) (stats_interval limit : ℕ) where
  round-Logs :
      (vl : ByteVecLaws x.vec) (filter : FilterConfig) (start m : ℕ) (before bytes : List ℕ)
      (h : HostState S (FileStorage F × D))
      → ((n : ℕ) → IsU64 (clock.now n))
      → All IsU8 bytes
      → (m + 1) * 64 < 2 ^ 32
      → Logs x k pl dl l packets clock stats_interval limit filter start m before h
      → (h' : HostState S (FileStorage F × D)) × (round x packets
            (file_storage fs)
            clock
            stats_interval
            h
            bytes
          ≡ ret h')
        × (h'.source ≡ h.source)
        × Logs x k pl dl l packets clock stats_interval limit filter start
            (m + 1)
            (before ++ bytes)
            h'
  round-Logs vl filter start m before bytes h c b small (inl (gs, w, few, records)) =
      let (p, run, a) =
        ingest_from-Ingests x filter clock start dl vl k 0 (in_order gs) before bytes h b
          w.follows in
      let g = settled x k pl dl packets (file_storage fs) clock stats_interval h bytes p in
      let g' = print_round x packets (file_storage fs) clock stats_interval g in
      let (source, pipeline, storage, instant) =
        print_round_keeps x k pl dl packets (file_storage fs) clock stats_interval g in
      (
        g',
        round-settled x k pl dl packets (file_storage fs) clock stats_interval h bytes p run
            (queue-IsStoredRecord x filter clock start 0 (in_order gs) (before ++ bytes) p c a),
        source,
        Logs-same x k pl dl l packets clock stats_interval limit filter start (m + 1)
            (before ++ bytes) g g' pipeline instant storage
            (settled-Archives x k pl dl l packets clock stats_interval limit filter start m gs
              before bytes h p c w few records small a),
      )
  round-Logs vl filter start m before bytes h c b small (inr w) =
      let (p, run, r, e) =
        ingest_from-failures x dl default_max_frame host_queue_depth (omega arith) vl k h.instant
          clock bytes h.pipeline c b w.running in
      let g = settled x k pl dl packets (file_storage fs) clock stats_interval h bytes p in
      let g' = print_round x packets (file_storage fs) clock stats_interval g in
      let (source, pipeline, storage, instant) =
        print_round_keeps x k pl dl packets (file_storage fs) clock stats_interval g in
      (
        g',
        round-settled x k pl dl packets (file_storage fs) clock stats_interval h bytes p run
            r.queue,
        source,
        Logs-same x k pl dl l packets clock stats_interval limit filter start (m + 1)
            (before ++ bytes) g g' pipeline instant storage
            (inr (
              settled-HasFailed x k pl dl l packets clock stats_interval limit m bytes h p w small r
                e)),
      )

  end_loop-Logs :
      (filter : FilterConfig) (start m : ℕ) (bytes : List ℕ) (h : HostState S (FileStorage F × D))
      → Logs x k pl dl l packets clock stats_interval limit filter start m bytes h
      → Logs x k pl dl l packets clock stats_interval limit filter start m bytes
          (end_loop x packets (file_storage fs) clock stats_interval h).1
  unfolding end_loop file_storage
  end_loop-Logs filter start m bytes h (inl (gs, w, few, records)) =
      let kept = flush-Holds x k pl l limit gs h.storage.0 h.storage.1 w.holds in
      let t = (flush fs h.storage).1 in
      inl (
        gs,
        record {
          follows =
              Follows-same x filter clock start 0 (in_order gs) bytes h
                (end_loop x packets (file_storage fs) clock stats_interval h).1
                (end_loop-pipeline x k pl dl packets (file_storage fs) clock stats_interval h)
                (end_loop-instant x k pl dl packets (file_storage fs) clock stats_interval h)
                w.follows;
          holds = elim (Result-cases (flush fs h.storage).0) [
            | inl (_, e) ↦ rw (e, end_loop) kept
            | inr (_, e) ↦ rw (e, end_loop) kept
          ];
          fitting = w.fitting;
        },
        few,
        records,
      )
  end_loop-Logs filter start m bytes h (inr w) =
      let same = end_loop-pipeline x k pl dl packets (file_storage fs) clock stats_interval h in
      inr (record {
        running = rw same w.running;
        failed = rw same w.failed;
        bounded = rw same w.bounded;
      })

  -- A new pipeline over a finite source of any bytes, on any disk: the loop ends without a panic.
  pub run_loop-Logs :
      (vl : ByteVecLaws x.vec) (is_end : E → Bool) (filter : FilterConfig) (n fuel : ℕ)
      (h : HostState S (FileStorage F × D)) (d : D)
      → ((n : ℕ) → IsU64 (clock.now n))
      → (f : IsFinite packets n h.source) → n < fuel
      → n * 64 < 2 ^ 32
      → h.pipeline ≡ Pipeline.new filter
      → h.storage ≡ (FileStorage.new fs limit, d)
      → (result : Result (Unit {0}) (HostError E W)) × (h' : HostState S (FileStorage F × D))
        × (run_loop x packets (file_storage fs) clock stats_interval is_end fuel h
            ≡ ret (result, h'))
        × Logs x k pl dl l packets clock stats_interval limit filter h.instant n
            (given packets f)
            h'
  unfolding in_order
  run_loop-Logs vl is_end filter n fuel h d c f enough small fresh opened =
      let start = h.instant in
      let (result, last, run, logs) =
        run_loop_keeps x k pl dl packets (file_storage fs) clock stats_interval is_end
          (Logs x k pl dl l packets clock stats_interval limit filter start) n
          (λ m bs g s w.
            Logs-same x k pl dl l packets clock stats_interval limit filter start m bs g
              (record g { source = s }) refl refl refl w)
          (λ m bs bytes g few b w.
            let (g', run, source, w') =
              round-Logs vl filter start m bs bytes g c b (omega arith) w in
            (
              g',
              run,
              source,
              subst
                  (λ i.
                    Logs x k pl dl l packets clock stats_interval limit filter start i (bs ++ bytes)
                      g')
                  (omega arith) w',
            ))
          (end_loop-Logs filter start) n fuel 0 [] h h.source f refl enough (omega arith)
          (inl (
            [],
            record {
              follows = Follows-new x filter clock start h fresh refl;
              holds = rw opened (new-Holds x k pl l limit d);
              fitting = tt;
            },
            omega arith,
            omega arith,
          )) in
      (
        result,
        last,
        run,
        subst
            (λ i.
              Logs x k pl dl l packets clock stats_interval limit filter start i (given packets f)
                last)
            (omega arith) logs,
      )
