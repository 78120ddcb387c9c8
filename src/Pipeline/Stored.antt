-- ===== src/Pipeline/Stored.antt =====
-- The records that wait in the queue.
use rust_telemetry_logger.Prelude.{
  ℕ, ◌<◌, ◌^◌, ◌≡◌, ◌∙◌, refl, subst, sym, List, [], ◌∷◌, ret, inl, inr, All, All-append, IsU8,
  IsU64,
}
use rust_telemetry_logger.External.Cobs.{CobsLaws}
use rust_telemetry_logger.External.Heapless.{DequeLaws, ByteVecLaws}
use rust_telemetry_logger.Filter.{FilterConfig}
use rust_telemetry_logger.Frame.{Frame}
use rust_telemetry_logger.Framer.{FrameOutput}
use rust_telemetry_logger.Framer.Invariant.{IsFramer, IsOutput}
use rust_telemetry_logger.Pipeline.{Crates, Pipeline, record_of, handle, ingest_from}
use rust_telemetry_logger.Framer.RoundTrip.{stamped, stamped-IsFrame}
use rust_telemetry_logger.Pipeline.Admission.{handle_cases}
use rust_telemetry_logger.Pipeline.Delivery.{IsDeliverable, arrivals}
use rust_telemetry_logger.Pipeline.History.{record_of-IsStoredRecord}
use rust_telemetry_logger.Pipeline.Ingest.{ingest_from-keeps}
use rust_telemetry_logger.Record.{IsStoredRecord}
use rust_telemetry_logger.Traits.{Clock}

module _ (x : Crates) (k : CobsLaws x.cobs) (MAX_FRAME QUEUE_DEPTH : ℕ) where
  pub arrivals-IsStoredRecord :
      (filter : FilterConfig) (fs : List Frame) (i : ℕ) (clock : Clock)
      → ((n : ℕ) → IsU64 (clock.now n))
      → All (IsDeliverable x k MAX_FRAME QUEUE_DEPTH filter) fs
      → All IsStoredRecord (arrivals x k MAX_FRAME QUEUE_DEPTH i clock fs)
  unfolding arrivals
  arrivals-IsStoredRecord filter [] i clock c h = tt
  arrivals-IsStoredRecord filter (f ∷ fs) i clock c (h, hs) = (
    record_of-IsStoredRecord _ (stamped x.crc16 f) (c _) (stamped-IsFrame x.crc16 f h.frame),
    arrivals-IsStoredRecord filter fs _ clock c hs,
  )

-- The framer satisfies its invariant, and every record in the queue is well formed.
pub record IsRunning (MAX_FRAME : ℕ) (p : Pipeline) : Type 0 where
  pub framer : IsFramer MAX_FRAME p.framer
  pub queue : All IsStoredRecord p.ringbuf.queue

module _ (x : Crates) (dl : DequeLaws x.deque) (MAX_FRAME N : ℕ) (small : N < 2 ^ 32) where
  handle-stored :
      (now : ℕ) (p : Pipeline) (o : FrameOutput)
      → IsU64 now
      → IsOutput o
      → All IsStoredRecord p.ringbuf.queue
      → All IsStoredRecord (handle x MAX_FRAME N now p o).ringbuf.queue
  handle-stored now p o c ho h = elim (handle_cases x dl MAX_FRAME N small now p o ho) [
    | inl (queue, _, _, _) ↦ subst (All IsStoredRecord) (sym queue) h
    | inr (f, valid, _, (_, _, queue, _, _, _)) ↦ subst (All IsStoredRecord) (sym queue) (
        All-append IsStoredRecord p.ringbuf.queue (record_of now f ∷ []) h
          (record_of-IsStoredRecord now f c valid, tt))
  ]

  -- `ingest` counts no failed writes.
  pub ingest_from-failures :
      (vl : ByteVecLaws x.vec) (k : CobsLaws x.cobs) (i : ℕ) (clock : Clock) (bytes : List ℕ)
      (p : Pipeline)
      → ((n : ℕ) → IsU64 (clock.now n))
      → All IsU8 bytes
      → IsRunning MAX_FRAME p
      → (p' : Pipeline) × (ingest_from x MAX_FRAME N i clock p bytes ≡ ret p')
        × IsRunning MAX_FRAME p'
        × (p'.stats.write_fail ≡ p.stats.write_fail)
  ingest_from-failures vl k i clock bytes p c b h =
      let (p', run, framer, (queue, failures)) =
        ingest_from-keeps x MAX_FRAME N
          (λ q. All IsStoredRecord q.ringbuf.queue × (q.stats.write_fail ≡ p.stats.write_fail)) vl k
          i clock bytes p
          (λ n q o ho w. (
            handle-stored (clock.now n) q o (c n) ho w.0,
            elim (handle_cases x dl MAX_FRAME N small (clock.now n) q o ho) [
              | inl (_, _, same, _) ↦ same ∙ w.1
              | inr (_, _, _, (_, _, _, _, same, _)) ↦ same ∙ w.1
            ],
          ))
          (λ q fr w. w) b h.framer (h.queue, refl) in
      (p', run, record { framer = framer; queue = queue }, failures)

  -- When the framer satisfies its invariant and the queue's records are well formed, `ingest` takes
  -- any bytes without a panic, and the same holds after it: whatever arrives, every record that
  -- waits in the queue can be encoded, as long as the clock shows 64-bit times.
  pub ingest_from-IsRunning :
      (vl : ByteVecLaws x.vec) (k : CobsLaws x.cobs) (i : ℕ) (clock : Clock) (bytes : List ℕ)
      (p : Pipeline)
      → ((n : ℕ) → IsU64 (clock.now n))
      → All IsU8 bytes
      → IsRunning MAX_FRAME p
      → (p' : Pipeline) × (ingest_from x MAX_FRAME N i clock p bytes ≡ ret p')
        × IsRunning MAX_FRAME p'
  ingest_from-IsRunning vl k i clock bytes p c b h =
      let (p', run, r, _) = ingest_from-failures vl k i clock bytes p c b h in (p', run, r)
