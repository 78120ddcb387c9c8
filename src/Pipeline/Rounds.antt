-- ===== src/Pipeline/Rounds.antt =====
-- A round of the loop of `drain`.
use rust_telemetry_logger.Prelude.{
  ℕ, Run, Result, ◌>>=◌, slice, suc, ◌+◌, ◌≡◌, ◌∙◌, ap, refl, sym, arith, List, [], ◌∷◌, ◌++◌, ret,
  ok, err, append_assoc, length, length-append, length-drop, drop, slice_front,
}
use rust_telemetry_logger.Error.{Error, storage}
use rust_telemetry_logger.External.Cobs.{CobsLaws}
use rust_telemetry_logger.External.Heapless.{DequeLaws}
use rust_telemetry_logger.Record.{StoredRecord, IsStoredRecord, max_stored_record_bytes}
use rust_telemetry_logger.Record.Format.{
  PostcardLaws, stored_body, length-stored_body, encode_layout,
}
use rust_telemetry_logger.Pipeline.Bytes.{stored}
use rust_telemetry_logger.RingBuf.Queue.{pop_empty, pop_first}
use rust_telemetry_logger.Pipeline.{
  Crates, Pipeline, count_write_fail, finish, write_record, drain_loop,
}
use rust_telemetry_logger.Traits.{Storage}

module _ (x : Crates) (k : CobsLaws x.cobs) (pl : PostcardLaws x.postcard) where
  abbrev pub with_queue : Pipeline → List StoredRecord → Pipeline
  with_queue p q = record p { ringbuf = record p.ringbuf { queue = q } }

  module _ (dl : DequeLaws x.deque) where
    -- The encode buffer behind the record `r`.
    abbrev pub buffer_with : StoredRecord → List ℕ → List ℕ
    buffer_with r buf = let b = stored_body pl x.crc32 k r in b ++ (0 ∷ drop (length b + 1) buf)

    pub length-buffer_with :
        (r : StoredRecord) (buf : List ℕ)
        → IsStoredRecord r
        → length buf ≡ max_stored_record_bytes
        → length (buffer_with r buf) ≡ max_stored_record_bytes
    length-buffer_with r buf h size =
        let b = stored_body pl x.crc32 k r in
        omega (
          arith,
          length-append b (0 ∷ drop (length b + 1) buf),
          length-drop (length b + 1) buf,
          length-stored_body pl x.crc32 k r h,
        )

    stored-front :
        (r : StoredRecord) (buf : List ℕ)
        → buffer_with r buf ≡ stored x k pl r ++ drop (length (stored_body pl x.crc32 k r) + 1) buf
    stored-front r buf = sym (append_assoc (stored_body pl x.crc32 k r) (0 ∷ []) _)

    module _ (MAX_FRAME QUEUE_DEPTH : ℕ) {S E : Type 0} (backend : Storage S E) where
      pub drain_empty :
          (fuel : ℕ) (p : Pipeline) (s : S) (buf : List ℕ) (count : ℕ)
          → p.ringbuf.queue ≡ []
          → drain_loop x MAX_FRAME QUEUE_DEPTH backend (suc fuel) p s buf count
            ≡ ret (finish x MAX_FRAME QUEUE_DEPTH backend (with_queue p []) s count)
      unfolding drain_loop
      drain_empty fuel p s buf count e =
          let popped = pop_empty dl 0 p.ringbuf e in rw (popped, drain_loop) (rw popped refl)

      writes :
          (p : Pipeline) (s : S) (buf : List ℕ) (r : StoredRecord)
          (next : S → List ℕ → Run (Result ℕ Error × Pipeline × S))
          → IsStoredRecord r
          → length buf ≡ max_stored_record_bytes
          → write_record x MAX_FRAME QUEUE_DEPTH backend p s buf r next
            ≡ elim (backend.write s (stored x k pl r)).0 [
              | err e ↦ ret (
                err storage,
                count_write_fail x MAX_FRAME QUEUE_DEPTH backend p,
                (backend.write s (stored x k pl r)).1,
              )
              | ok _ ↦ next (backend.write s (stored x k pl r)).1 (buffer_with r buf)
            ]
      unfolding write_record
      writes p s buf r next h size =
          let b = stored_body pl x.crc32 k r in
          rw (encode_layout pl x.crc32 k r buf h (omega arith), write_record)
            (ap
              (λ t. t >>= λ bytes. elim (backend.write s bytes).0 [
                | err e ↦ ret (
                  err storage,
                  count_write_fail x MAX_FRAME QUEUE_DEPTH backend p,
                  (backend.write s bytes).1,
                )
                | ok _ ↦ next (backend.write s bytes).1 (buffer_with r buf)
              ])
              (ap (λ l. slice l 0 (length b + 1)) (stored-front r buf)
                ∙ slice_front (stored x k pl r) (drop (length b + 1) buf) (length b + 1)
                    (sym (length-append b (0 ∷ [])))))

      -- One round of the loop: the first record is encoded and its bytes are written.
      pub drain_round :
          (fuel : ℕ) (p : Pipeline) (s : S) (buf : List ℕ) (count : ℕ) (r : StoredRecord)
          (q : List StoredRecord)
          → p.ringbuf.queue ≡ r ∷ q
          → IsStoredRecord r
          → length buf ≡ max_stored_record_bytes
          → drain_loop x MAX_FRAME QUEUE_DEPTH backend (suc fuel) p s buf count
            ≡ elim (backend.write s (stored x k pl r)).0 [
              | err e ↦ ret (
                err storage,
                count_write_fail x MAX_FRAME QUEUE_DEPTH backend (with_queue p q),
                (backend.write s (stored x k pl r)).1,
              )
              | ok _ ↦
                  drain_loop x MAX_FRAME QUEUE_DEPTH backend fuel
                    (with_queue p q)
                    (backend.write s (stored x k pl r)).1
                    (buffer_with r buf)
                    (count + 1)
            ]
      unfolding drain_loop
      drain_round fuel p s buf count r q e h size =
          let popped = pop_first dl 0 p.ringbuf r q e in
          rw (popped, drain_loop)
            (rw popped (
              writes (with_queue p q) s buf r
                (λ s' buf.
                  drain_loop x MAX_FRAME QUEUE_DEPTH backend fuel (with_queue p q) s' buf
                    (count + 1))
                h size))
