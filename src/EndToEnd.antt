-- ===== src/EndToEnd.antt =====
-- The whole way: frames on the wire, `ingest`, `drain`, and `read_segment` of what was stored.
pub mod Archive
pub mod Generated
pub mod Logger
use rust_telemetry_logger.Prelude.{
  ℕ, suc, ◌≡◌, ◌∙◌, ◌≤◌, ◌<◌, ◌^◌, ap, refl, sym, arith, none, List, [], ◌∷◌, map, ret, ok, All,
  IsU64, length, subst,
}
use rust_telemetry_logger.External.Cobs.{CobsLaws}
use rust_telemetry_logger.External.Crc.{CrcLaws}
use rust_telemetry_logger.External.Heapless.{DequeLaws, ByteVecLaws}
use rust_telemetry_logger.Filter.{FilterConfig}
use rust_telemetry_logger.Frame.{Frame}
use rust_telemetry_logger.Framer.RoundTrip.{wires}
use rust_telemetry_logger.Record.{IsStoredRecord}
use rust_telemetry_logger.Record.Format.{PostcardLaws}
use rust_telemetry_logger.Pipeline.{Crates, Pipeline, new, ingest, drain}
use rust_telemetry_logger.Pipeline.Delivery.{IsDeliverable, InOrder, arrivals, ingest_from-wires}
use rust_telemetry_logger.Pipeline.Bytes.{stored_all}
use rust_telemetry_logger.Pipeline.Rounds.{with_queue}
use rust_telemetry_logger.Pipeline.Drain.{drain-capturing}
use rust_telemetry_logger.Segment.{read_segment}
use rust_telemetry_logger.Segment.Read.{read_segment_exact}
use rust_telemetry_logger.Pipeline.Stored.{arrivals-IsStoredRecord}
use rust_telemetry_logger.Traits.{Clock, CapturingStorage, capturing, capturing_new}

module _ (x : Crates) (k : CobsLaws x.cobs) (pl : PostcardLaws x.postcard)
    (MAX_FRAME QUEUE_DEPTH : ℕ) where
  length-arrivals :
      (fs : List Frame) (i : ℕ) (clock : Clock)
      → length (arrivals x k MAX_FRAME QUEUE_DEPTH i clock fs) ≡ length fs
  unfolding arrivals
  length-arrivals [] i clock = refl
  length-arrivals (f ∷ fs) i clock = ap suc (length-arrivals fs _ clock)

  -- A new pipeline that is given deliverable frames in order, no more than the queue holds, and is
  -- then drained into storage that accepts everything, stores them all: `drain` returns their
  -- number, and reading the stored bytes gives their records in order, each with the time of its
  -- delimiter.
  pub read_segment-drain-ingest :
      (crc16l : CrcLaws (2 ^ 16) x.crc16) (crc32l : CrcLaws (2 ^ 32) x.crc32)
      (vl : ByteVecLaws x.vec) (dl : DequeLaws x.deque) (filter : FilterConfig) (clock : Clock)
      (fs : List Frame)
      → QUEUE_DEPTH < 2 ^ 32
      → ((n : ℕ) → IsU64 (clock.now n))
      → All (IsDeliverable x k MAX_FRAME QUEUE_DEPTH filter) fs
      → InOrder none fs
      → length fs ≤ QUEUE_DEPTH
      → (p p' : Pipeline) × (s : CapturingStorage) × (ingest x MAX_FRAME QUEUE_DEPTH clock
            (new filter)
            (wires x.crc16 k fs)
          ≡ ret p)
        × (drain x MAX_FRAME QUEUE_DEPTH capturing p capturing_new ≡ ret (ok (length fs), p', s))
        × (read_segment x.postcard x.crc32 x.cobs s.written
            ≡ ret (map (λ r. ok r) (arrivals x k MAX_FRAME QUEUE_DEPTH 0 clock fs)))
  read_segment-drain-ingest crc16l crc32l vl dl filter clock fs small c h n room =
      let rs = arrivals x k MAX_FRAME QUEUE_DEPTH 0 clock fs in
      let good = arrivals-IsStoredRecord x k MAX_FRAME QUEUE_DEPTH filter fs 0 clock c h in
      let (p, run, queue, _, _, _, _) =
        ingest_from-wires x k MAX_FRAME QUEUE_DEPTH crc16l vl dl small fs 0 clock (new filter) h n
          (omega arith) refl refl in
      let s : CapturingStorage = record { written = stored_all x k pl rs; flush_count = 1 } in
      (
        p,
        with_queue x k pl p [],
        s,
        unfold ingest in run,
        drain-capturing x k pl dl MAX_FRAME QUEUE_DEPTH p capturing_new
              (subst (All IsStoredRecord) (sym queue) good)
            ∙ ap
                (λ q. ret (
                  ok (length q),
                  with_queue x k pl p [],
                  record { written = stored_all x k pl q; flush_count = 1 },
                ))
                queue
            ∙ ap (λ m. ret (ok m, with_queue x k pl p [], s)) (length-arrivals fs 0 clock),
        read_segment_exact x k pl crc32l rs good,
      )
