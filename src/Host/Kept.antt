-- ===== src/Host/Kept.antt =====
-- What `run_loop` stores, whatever its source gives.
use rust_telemetry_logger.Prelude.{
  ℕ, ◌+◌, ◌<◌, ◌^◌, ◌≡◌, ◌∙◌, ap, sym, refl, arith, Bool, List, [], ◌++◌, map, ret, length, All,
  IsU8, IsU64, Result, ok,
}
use rust_telemetry_logger.External.Cobs.{CobsLaws}
use rust_telemetry_logger.External.Crc.{CrcLaws}
use rust_telemetry_logger.External.Heapless.{DequeLaws, ByteVecLaws}
use rust_telemetry_logger.Filter.{FilterConfig}
use rust_telemetry_logger.Host.{HostState, HostError, print_round, round, end_loop, run_loop}
use rust_telemetry_logger.Host.Follows.{
  Accounts, Follows, Follows-new, Follows-same, ingest_from-Ingests, Ingests-Follows,
  queue-IsStoredRecord, Follows-Accounts, Accounts-IsStoredRecord,
}
use rust_telemetry_logger.Host.Loop.{
  IsFinite, given, end_loop-pipeline, end_loop-instant, print_round_keeps, run_loop_keeps,
}
use rust_telemetry_logger.Pipeline.{Crates, new, default_max_frame, host_queue_depth}
use rust_telemetry_logger.Pipeline.Bytes.{stored_all, stored_all-append}
use rust_telemetry_logger.Pipeline.Drain.{drain-capturing}
use rust_telemetry_logger.Pipeline.Rounds.{with_queue}
use rust_telemetry_logger.Record.{StoredRecord}
use rust_telemetry_logger.Record.Format.{PostcardLaws}
use rust_telemetry_logger.Segment.{read_segment}
use rust_telemetry_logger.Segment.Read.{read_segment_exact}
use rust_telemetry_logger.Traits.{PacketSource, Clock, CapturingStorage, capturing}

module _ (x : Crates) (k : CobsLaws x.cobs) (pl : PostcardLaws x.postcard) (dl : DequeLaws x.deque)
    {S E : Type 0} (packets : PacketSource S E) (clock : Clock) (stats_interval : ℕ) where
  -- Behind the bytes of the source so far: the storage holds the encodings of these records.
  pub record Keeps (filter : FilterConfig) (start : ℕ) (bytes : List ℕ) (rs : List StoredRecord)
      (h : HostState S CapturingStorage) : Type 0 where
    pub follows : Follows x filter clock start 0 rs bytes h
    pub written : h.storage.written ≡ stored_all x k pl rs

  round-Keeps :
      (vl : ByteVecLaws x.vec) (filter : FilterConfig) (start : ℕ) (before bytes : List ℕ)
      (rs : List StoredRecord) (h : HostState S CapturingStorage)
      → ((n : ℕ) → IsU64 (clock.now n))
      → All IsU8 bytes
      → Keeps filter start before rs h
      → (h' : HostState S CapturingStorage) × (round x packets capturing clock stats_interval h
            bytes
          ≡ ret h')
        × (h'.source ≡ h.source)
        × ((qs : List StoredRecord) × Keeps filter start (before ++ bytes) (rs ++ qs) h')
  unfolding round
  round-Keeps vl filter start before bytes rs h c b w =
      let (p, run, ingests) =
        ingest_from-Ingests x filter clock start dl vl k 0 rs before bytes h b w.follows in
      let qs = p.ringbuf.queue in
      let stores =
        drain-capturing x k pl dl default_max_frame host_queue_depth p h.storage
          (queue-IsStoredRecord x filter clock start 0 rs (before ++ bytes) p c ingests) in
      let g : HostState S CapturingStorage = record h {
        pipeline = with_queue x k pl p [];
        storage = record h.storage {
          written = h.storage.written ++ stored_all x k pl qs;
          flush_count = h.storage.flush_count + 1;
        };
        instant = h.instant + length bytes;
      } in
      let g' = print_round x packets capturing clock stats_interval g in
      let (source, pipeline, storage, instant) =
        print_round_keeps x k pl dl packets capturing clock stats_interval g in
      (
        g',
        rw (run, stores) refl,
        source,
        (
          qs,
          record {
            follows =
                Ingests-Follows x filter clock start k pl 0 rs before bytes h g' p pipeline instant
                  w.follows.instant ingests;
            written = rw storage (
                ap (λ l. l ++ stored_all x k pl qs) w.written
                ∙ sym (stored_all-append x k pl rs qs));
          },
        ),
      )

  end_loop-Keeps :
      (filter : FilterConfig) (start : ℕ) (bytes : List ℕ) (rs : List StoredRecord)
      (h : HostState S CapturingStorage)
      → Keeps filter start bytes rs h
      → Keeps filter start bytes rs (end_loop x packets capturing clock stats_interval h).1
  end_loop-Keeps filter start bytes rs h w = record {
    follows =
        Follows-same x filter clock start 0 rs bytes h
          (end_loop x packets capturing clock stats_interval h).1
          (end_loop-pipeline x k pl dl packets capturing clock stats_interval h)
          (end_loop-instant x k pl dl packets capturing clock stats_interval h) w.follows;
    written = unfold end_loop in w.written;
  }

  -- What is left of the source does not matter.
  moved :
      (filter : FilterConfig) (start : ℕ) (bytes : List ℕ) (rs : List StoredRecord)
      (h : HostState S CapturingStorage) (s : S)
      → Keeps filter start bytes rs h
      → Keeps filter start bytes rs (record h { source = s })
  moved filter start bytes rs h s w = record {
    follows =
        Follows-same x filter clock start 0 rs bytes h (record h { source = s }) refl refl
          w.follows;
    written = w.written;
  }

  -- A new pipeline over a finite source of any bytes, with storage that accepts everything: the loop
  -- ends without a panic, and reading what it stored gives records without an error. They are, in
  -- order, the records of those complete frames among a new framer's outputs for all the bytes that
  -- the source gave, each with the time of its delimiter, that are sound, follow in sequence the
  -- sound frame before, pass the filter and were not dropped by the full queue; `stats.ok` counts
  -- them, and `stats.dropped` the dropped ones, modulo 2 ^ 64. No record stays in the queue. The fuel
  -- of the loop exceeds the reads that give bytes, and the clock shows 64-bit times.
  pub read_segment-Accounts :
      (crc32l : CrcLaws (2 ^ 32) x.crc32) (vl : ByteVecLaws x.vec) (is_end : E → Bool)
      (filter : FilterConfig) (n fuel : ℕ) (h : HostState S CapturingStorage)
      → ((n : ℕ) → IsU64 (clock.now n))
      → (f : IsFinite packets n h.source) → n < fuel
      → h.pipeline ≡ new filter
      → h.storage.written ≡ []
      → (result : Result (Unit {0}) (HostError E (Unit {0}))) × (h' : HostState S CapturingStorage)
        × (rs : List StoredRecord) × (run_loop x packets capturing clock stats_interval is_end fuel
              h
            ≡ ret (result, h'))
        × (read_segment x.postcard x.crc32 x.cobs h'.storage.written ≡ ret (map (λ r. ok r) rs))
        × Accounts x filter clock h.instant (given packets f) rs h'.pipeline
        × (h'.pipeline.ringbuf.queue ≡ [])
  unfolding stored_all
  read_segment-Accounts crc32l vl is_end filter n fuel h c f enough fresh nothing =
      let begin : Keeps filter h.instant [] [] h = record {
        follows = Follows-new x filter clock h.instant h fresh refl;
        written = nothing;
      } in
      let (result, h', run, (rs, w)) =
        run_loop_keeps x k pl dl packets capturing clock stats_interval is_end
          (λ m bs g. (qs : List StoredRecord) × Keeps filter h.instant bs qs g) n
          (λ m bs g s (qs, kept). (qs, moved filter h.instant bs qs g s kept))
          (λ m bs bytes g small b (qs, kept).
            let (g', run, source, (new, kept')) =
              round-Keeps vl filter h.instant bs bytes qs g c b kept in
            (g', run, source, (qs ++ new, kept')))
          (λ m bs g (qs, kept). (qs, end_loop-Keeps filter h.instant bs qs g kept)) n fuel 0 [] h
          h.source f refl enough (omega arith) ([], begin) in
      let accounts =
        Follows-Accounts x filter clock h.instant 0 rs (given packets f) h' w.follows in
      (
        result,
        h',
        rs,
        run,
        ap (read_segment x.postcard x.crc32 x.cobs) w.written
            ∙ read_segment_exact x k pl crc32l rs (
                Accounts-IsStoredRecord x filter clock h.instant rs (given packets f) h'.pipeline c
                  accounts),
        accounts,
        w.follows.empty,
      )
