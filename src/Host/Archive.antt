-- ===== src/Host/Archive.antt =====
-- `run_loop` into segment files, on a disk that may fail.
use rust_telemetry_logger.Prelude.{
  IsU64, ◌++◌, ℕ, ◌+◌, ◌*◌, ◌<◌, ◌≤◌, ◌^◌, ◌≡◌, ◌⊎◌, ap, sym, subst, refl, arith, List, inl, inr,
  length, length-append, All, All-append_right,
}
use rust_telemetry_logger.External.Cobs.{CobsLaws}
use rust_telemetry_logger.External.Files.{Files, FilesLaws}
use rust_telemetry_logger.External.Heapless.{DequeLaws}
use rust_telemetry_logger.FileStorage.{FileStorage, file_storage}
use rust_telemetry_logger.FileStorage.Drain.{drained-Holds}
use rust_telemetry_logger.FileStorage.Groups.{
  in_order, in_order-places, IsFitting, places, places-IsFitting, length-places,
}
use rust_telemetry_logger.FileStorage.Segments.{Holds}
use rust_telemetry_logger.Filter.{FilterConfig}
use rust_telemetry_logger.Host.{HostState}
use rust_telemetry_logger.Host.Follows.{
  Follows, Ingests, Follows-same, Ingests-Follows, queue-IsStoredRecord,
}
use rust_telemetry_logger.Host.Loop.{settled}
use rust_telemetry_logger.Pipeline.{Crates, Pipeline, default_max_frame, host_queue_depth}
use rust_telemetry_logger.Pipeline.Drain.{drained_cases}
use rust_telemetry_logger.Pipeline.Stored.{IsRunning}
use rust_telemetry_logger.Record.{StoredRecord, IsStoredRecord}
use rust_telemetry_logger.Record.Format.{PostcardLaws}
use rust_telemetry_logger.Traits.{PacketSource, Clock}

module _ (x : Crates) (k : CobsLaws x.cobs) (pl : PostcardLaws x.postcard) (dl : DequeLaws x.deque)
    {S E D F W : Type 0} {fs : Files D F W} (l : FilesLaws fs) (packets : PacketSource S E)
    (clock : Clock) (stats_interval limit : ℕ) where
  abbrev Host : Type 0
  Host = HostState S (FileStorage F × D)

  -- Behind the bytes of the source so far, when no write has failed: the segment files hold these
  -- groups of records.
  pub record Archives (filter : FilterConfig) (start : ℕ) (bytes : List ℕ)
      (gs : List (List StoredRecord)) (h : Host) : Type 0 where
    pub follows : Follows x filter clock start 0 (in_order gs) bytes h
    pub holds : Holds x k pl l limit gs h.storage.0 h.storage.1
    pub fitting : All (IsFitting x k pl limit) gs

  -- A write or a flush has failed, in at most `m` rounds.
  pub record HasFailed (m : ℕ) (h : Host) : Type 0 where
    pub running : IsRunning default_max_frame h.pipeline
    pub failed : 0 < h.pipeline.stats.write_fail
    pub bounded : h.pipeline.stats.write_fail ≤ m

  -- Behind `m` rounds.
  abbrev pub Logs : FilterConfig → ℕ → ℕ → List ℕ → Host → Type 0
  Logs filter start m bytes h =
      ((gs : List (List StoredRecord)) × Archives filter start bytes gs h
        × (length gs ≤ m * 64)
        × (length (in_order gs) ≤ m * 64))
      ⊎ HasFailed m h

  -- What `drain` makes of the records behind `ingest`.
  pub settled-Archives :
      (filter : FilterConfig) (start m : ℕ) (gs : List (List StoredRecord)) (before bytes : List ℕ)
      (h : Host) (p : Pipeline)
      → ((n : ℕ) → IsU64 (clock.now n))
      → Archives filter start before gs h
      → length gs ≤ m * 64
      → length (in_order gs) ≤ m * 64
      → (m + 1) * 64 < 2 ^ 32
      → Ingests x filter clock start 0 (in_order gs) (before ++ bytes) p
      → Logs filter start
          (m + 1)
          (before ++ bytes)
          (settled x k pl dl packets (file_storage fs) clock stats_interval h bytes p)
  settled-Archives filter start m gs before bytes h p c w few records small a =
      let q = p.ringbuf.queue in
      let g = settled x k pl dl packets (file_storage fs) clock stats_interval h bytes p in
      let stored =
        drained-Holds x k pl dl default_max_frame host_queue_depth l limit q gs p h.storage.0
          h.storage.1 0 w.holds (omega (arith, a.admits.fits)) in
      let all = in_order-places x k pl limit q gs in
      elim (drained_cases x k pl dl default_max_frame host_queue_depth (file_storage fs) q p
        h.storage 0) [
          | inr (_, taken, rest, e, same) ↦
              let good =
                queue-IsStoredRecord x filter clock start 0 (in_order gs) (before ++ bytes) p c a in
              inr (
                rw same (record {
                  running = record {
                    framer = a.framer;
                    queue =
                        All-append_right IsStoredRecord taken rest
                          (subst (All IsStoredRecord) e good);
                  };
                  failed = omega (arith, a.admits.failed);
                  bounded = omega (arith, a.admits.failed);
                }))
          | inl (returned, same) ↦ elim stored [
            | inr fails ↦ cc (returned, fails)
            | inl (_, holds) ↦ inl (
              places x k pl limit gs q,
              record {
                follows =
                    subst (λ rs. Follows x filter clock start 0 rs (before ++ bytes) g) (sym all)
                      (Ingests-Follows x filter clock start k pl 0 (in_order gs) before bytes h g p
                        same refl w.follows.instant a);
                holds = holds;
                fitting = places-IsFitting x k pl limit q gs w.fitting;
              },
              omega (arith, length-places x k pl limit q gs, a.admits.fits),
              omega (arith, ap length all, length-append (in_order gs) q, a.admits.fits, records),
            )
          ]
        ]

  -- What `drain` makes of the records behind `ingest`, when a write has failed before.
  pub settled-HasFailed :
      (m : ℕ) (bytes : List ℕ) (h : Host) (p : Pipeline)
      → HasFailed m h
      → (m + 1) * 64 < 2 ^ 32
      → IsRunning default_max_frame p
      → p.stats.write_fail ≡ h.pipeline.stats.write_fail
      → HasFailed
          (m + 1)
          (settled x k pl dl packets (file_storage fs) clock stats_interval h bytes p)
  settled-HasFailed m bytes h p w small r e =
      let q = p.ringbuf.queue in
      elim (drained_cases x k pl dl default_max_frame host_queue_depth (file_storage fs) q p
        h.storage 0) [
          | inr (_, taken, rest, split, same) ↦ rw same (record {
            running = record {
              framer = r.framer;
              queue =
                  All-append_right IsStoredRecord taken rest
                    (subst (All IsStoredRecord) split r.queue);
            };
            failed = omega (arith, e, w.failed, w.bounded);
            bounded = omega (arith, e, w.failed, w.bounded);
          })
          | inl (_, same) ↦ rw same (record {
            running = record { framer = r.framer; queue = tt };
            failed = omega (arith, e, w.failed);
            bounded = omega (arith, e, w.bounded);
          })
        ]

  -- The print at the end of a round, and what is left of the source, do not matter.
  pub Logs-same :
      (filter : FilterConfig) (start m : ℕ) (bytes : List ℕ) (h h' : Host)
      → h'.pipeline ≡ h.pipeline
      → h'.instant ≡ h.instant
      → h'.storage ≡ h.storage
      → Logs filter start m bytes h
      → Logs filter start m bytes h'
  Logs-same filter start m bytes h h' e at s (inl (gs, w, few, records)) = inl (
    gs,
    record {
      follows = Follows-same x filter clock start 0 (in_order gs) bytes h h' e at w.follows;
      holds = rw s w.holds;
      fitting = w.fitting;
    },
    few,
    records,
  )
  Logs-same filter start m bytes h h' e at s (inr w) =
      inr (record { running = rw e w.running; failed = rw e w.failed; bounded = rw e w.bounded })
