-- ===== src/Pipeline/Drain.antt =====
-- `drain`: every queued record is written, in order, or the first failure is reported.
use rust_telemetry_logger.Prelude.{
  ℕ, inl, inr, Result-cases, Result, zero, suc, ◌+◌, ◌<◌, ◌≡◌, ◌⊎◌, ◌∙◌, ap, refl, arith, List, [],
  ◌∷◌, ◌++◌, ret, ok, err, append_assoc, append-nil, length, All, zeroed, length-zeroed, add_u64,
}
use rust_telemetry_logger.Error.{Error, storage}
use rust_telemetry_logger.External.Cobs.{CobsLaws}
use rust_telemetry_logger.External.Heapless.{DequeLaws}
use rust_telemetry_logger.Record.{StoredRecord, IsStoredRecord, max_stored_record_bytes}
use rust_telemetry_logger.Record.Format.{PostcardLaws}
use rust_telemetry_logger.Pipeline.Bytes.{stored, stored_all}
use rust_telemetry_logger.Pipeline.{Crates, Pipeline, count_write_fail, finish, drain_loop, drain}
use rust_telemetry_logger.Traits.{Storage, CapturingStorage, capturing}
use rust_telemetry_logger.Pipeline.Rounds.{
  with_queue, buffer_with, length-buffer_with, drain_empty, drain_round,
}

module _ (x : Crates) (k : CobsLaws x.cobs) (pl : PostcardLaws x.postcard)
    (dl : DequeLaws x.deque) where
  module _ (MAX_FRAME QUEUE_DEPTH : ℕ) {S E : Type 0} (backend : Storage S E) where
    -- The specification: the records one after the other, each lost if its write fails, and one
    -- flush at the end. Each failure counts once.
    abbrev pub failed : Pipeline → Pipeline
    failed p = record p { stats = record p.stats { write_fail = add_u64 p.stats.write_fail 1 } }

    unfoldable pub drained : Pipeline → S → List StoredRecord → ℕ → Result ℕ Error × Pipeline × S
    drained p s [] count = elim (backend.flush s).0 [
      | err e ↦ (err storage, failed (with_queue x k pl p []), (backend.flush s).1)
      | ok _ ↦ (ok count, with_queue x k pl p [], (backend.flush s).1)
    ]
    drained p s (r ∷ q) count = elim (backend.write s (stored x k pl r)).0 [
      | err e ↦ (err storage, failed (with_queue x k pl p q), (backend.write s (stored x k pl r)).1)
      | ok _ ↦ drained (with_queue x k pl p q) (backend.write s (stored x k pl r)).1 q (count + 1)
    ]

    -- The queue is empty at the end, unless a write or the flush failed: then the rest of the queue
    -- stays, and the failure is counted.
    -- On storage that never fails.
    pub drained_succeeds :
        (q : List StoredRecord) (p : Pipeline) (s : S) (count : ℕ)
        → ((t : S) (bytes : List ℕ) → (backend.write t bytes).0 ≡ ok tt)
        → ((t : S) → (backend.flush t).0 ≡ ok tt)
        → (drained p s q count).1 ≡ with_queue x k pl p []
    unfolding drained
    drained_succeeds [] p s count w f = rw (f s, drained) refl
    drained_succeeds (r ∷ q) p s count w f =
        rw (w s (stored x k pl r), drained)
          (drained_succeeds q (with_queue x k pl p q) (backend.write s (stored x k pl r)).1
            (count + 1) w f)

    pub drained_cases :
        (q : List StoredRecord) (p : Pipeline) (s : S) (count : ℕ)
        → let r = drained p s q count in
          ((r.0 ≡ ok (count + length q)) × (r.1 ≡ with_queue x k pl p []))
          ⊎ ((r.0 ≡ err storage)
              × (taken : List StoredRecord) × (rest : List StoredRecord) × (q ≡ taken ++ rest)
              × (r.1 ≡ failed (with_queue x k pl p rest)))
    unfolding drained
    drained_cases [] p s count = elim (Result-cases (backend.flush s).0) [
      | inl (_, done) ↦ rw (done, drained) (inl (ap ok (omega arith), refl))
      | inr (_, fails) ↦ rw (fails, drained) (inr (refl, [], [], refl, refl))
    ]
    drained_cases (r ∷ q) p s count = elim (Result-cases (backend.write s (stored x k pl r)).0) [
      | inr (_, fails) ↦ rw (fails, drained) (inr (refl, r ∷ [], q, refl, refl))
      | inl (_, wrote) ↦
          rw (wrote, drained)
            (elim (drained_cases q (with_queue x k pl p q) (backend.write s (stored x k pl r)).1
              (count + 1)) [
                | inl (returned, same) ↦
                    inl (returned ∙ ap {A = ℕ} {B = Result ℕ Error} ok (omega arith), same)
                | inr (stopped, taken, rest, e, same) ↦
                    inr (stopped, r ∷ taken, rest, ap (λ l. r ∷ l) e, same)
              ])
    ]

    finish-drained :
        (p : Pipeline) (s : S) (count : ℕ)
        → finish x MAX_FRAME QUEUE_DEPTH backend (with_queue x k pl p []) s count
          ≡ drained p s [] count
    unfolding drained finish count_write_fail
    finish-drained p s count = elim (Result-cases (backend.flush s).0) [
      | inl (_, flushed) ↦ rw (flushed, drained) refl
      | inr (_, fails) ↦ rw (fails, drained) refl
    ]

    drain_loop-drained :
        (q : List StoredRecord) (fuel : ℕ) (p : Pipeline) (s : S) (buf : List ℕ) (count : ℕ)
        → p.ringbuf.queue ≡ q
        → All IsStoredRecord q
        → length q < fuel
        → length buf ≡ max_stored_record_bytes
        → drain_loop x MAX_FRAME QUEUE_DEPTH backend fuel p s buf count ≡ ret (drained p s q count)
    unfolding drained count_write_fail
    drain_loop-drained q zero p s buf count e h enough size = absurd (omega (arith, enough))
    drain_loop-drained [] (suc fuel) p s buf count e h enough size =
        drain_empty x k pl dl MAX_FRAME QUEUE_DEPTH backend fuel p s buf count e
        ∙ ap (λ r. ret r) (finish-drained p s count)
    drain_loop-drained (r ∷ q) (suc fuel) p s buf count e (h, hs) enough size =
        drain_round x k pl dl MAX_FRAME QUEUE_DEPTH backend fuel p s buf count r q e h size
        ∙ elim (Result-cases (backend.write s (stored x k pl r)).0) [
          | inl (_, wrote) ↦
              rw (wrote, drained)
                (drain_loop-drained q fuel (with_queue x k pl p q)
                  (backend.write s (stored x k pl r)).1 (buffer_with x k pl dl r buf) (count + 1)
                  refl hs (omega arith) (length-buffer_with x k pl dl r buf h size))
          | inr (_, fails) ↦ rw (fails, drained) refl
        ]

    -- For a queue of well-formed records the loop of `drain` ends, within its bounds, with the
    -- result of the specification: the encodings are written in the order of the queue, the first
    -- failing write returns `Error::Storage` with one more `write_fail`, its record lost and the
    -- rest of the queue kept, and a failing flush does so at the end.
    pub drain-drained :
        (p : Pipeline) (s : S)
        → All IsStoredRecord p.ringbuf.queue
        → drain x MAX_FRAME QUEUE_DEPTH backend p s ≡ ret (drained p s p.ringbuf.queue 0)
    unfolding drain
    drain-drained p s h =
        drain_loop-drained p.ringbuf.queue (length p.ringbuf.queue + 1) p s
          (zeroed max_stored_record_bytes) 0 refl h (omega arith)
          (length-zeroed max_stored_record_bytes)

  drained-capturing :
      (MAX_FRAME QUEUE_DEPTH : ℕ) (q : List StoredRecord) (p : Pipeline) (s : CapturingStorage)
      (count : ℕ)
      → drained MAX_FRAME QUEUE_DEPTH capturing p s q count ≡ (
        ok (count + length q),
        with_queue x k pl p [],
        record s { written = s.written ++ stored_all x k pl q; flush_count = s.flush_count + 1 },
      )
  unfolding drained stored_all
  drained-capturing M D [] p s count = rw (append-nil s.written) (
      ap (λ n. (ok n, with_queue x k pl p [], record s { flush_count = s.flush_count + 1 }))
        (omega arith))
  drained-capturing M D (r ∷ q) p s count =
      drained-capturing M D q (with_queue x k pl p q)
        (record s { written = s.written ++ stored x k pl r }) (count + 1)
      ∙ ap {A = ℕ} {B = Result ℕ Error × Pipeline × CapturingStorage}
          (λ n. (
            ok n,
            with_queue x k pl p [],
            record s {
              written = (s.written ++ stored x k pl r) ++ stored_all x k pl q;
              flush_count = s.flush_count + 1;
            },
          ))
          (omega arith)
      ∙ ap {A = List ℕ} {B = Result ℕ Error × Pipeline × CapturingStorage}
          (λ w. (
            ok (count + length (r ∷ q)),
            with_queue x k pl p [],
            record s { written = w; flush_count = s.flush_count + 1 },
          ))
          (append_assoc s.written (stored x k pl r) (stored_all x k pl q))

  -- Storage that accepts everything gets the whole queue of well-formed records: their encodings
  -- in order behind what it had, and one flush. `drain` returns the number of records, and leaves
  -- an empty queue and the counters as they were.
  pub drain-capturing :
      (MAX_FRAME QUEUE_DEPTH : ℕ) (p : Pipeline) (s : CapturingStorage)
      → All IsStoredRecord p.ringbuf.queue
      → drain x MAX_FRAME QUEUE_DEPTH capturing p s
        ≡ ret (
          ok (length p.ringbuf.queue),
          with_queue x k pl p [],
          record s {
            written = s.written ++ stored_all x k pl p.ringbuf.queue;
            flush_count = s.flush_count + 1;
          },
        )
  drain-capturing M D p s h =
      drain-drained M D capturing p s h
      ∙ ap (λ r. ret r)
          (drained-capturing M D p.ringbuf.queue p s 0
            ∙ ap {A = ℕ} {B = Result ℕ Error × Pipeline × CapturingStorage}
                (λ n. (
                  ok n,
                  with_queue x k pl p [],
                  record s {
                    written = s.written ++ stored_all x k pl p.ringbuf.queue;
                    flush_count = s.flush_count + 1;
                  },
                ))
                (omega arith))
