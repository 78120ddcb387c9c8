-- ===== src/FileStorage/Drain.antt =====
-- `drain` into segment files.
use rust_telemetry_logger.Prelude.{
  ℕ, ◌+◌, ◌<◌, ◌^◌, ◌≡◌, ◌⊎◌, ◌∙◌, ap, sym, refl, subst, arith, List, [], ◌∷◌, length, inl, inr,
  Result-cases, All, Result, ok, err, ret,
}
use rust_telemetry_logger.Error.{Error, storage}
use rust_telemetry_logger.External.Cobs.{CobsLaws}
use rust_telemetry_logger.External.Crc.{CrcLaws}
use rust_telemetry_logger.External.Files.{Files, FilesLaws}
use rust_telemetry_logger.External.Heapless.{DequeLaws}
use rust_telemetry_logger.FileStorage
use rust_telemetry_logger.FileStorage.{FileStorage, flush, write, file_storage}
use rust_telemetry_logger.FileStorage.Groups.{
  in_order, in_order-places, IsFitting, places-IsFitting, place, places, length-place,
}
use rust_telemetry_logger.FileStorage.Segments.{
  ReadsBack, OnDisk-ReadsBack, Holds, new-Holds, flush-Holds, write-Holds,
}
use rust_telemetry_logger.Pipeline.{Crates, Pipeline, drain}
use rust_telemetry_logger.Pipeline.Bytes.{stored}
use rust_telemetry_logger.Pipeline.Rounds.{with_queue}
use rust_telemetry_logger.Pipeline.Drain.{drained, drain-drained}
use rust_telemetry_logger.Record.{StoredRecord, IsStoredRecord}
use rust_telemetry_logger.Record.Format.{PostcardLaws}

module _ (x : Crates) (k : CobsLaws x.cobs) (pl : PostcardLaws x.postcard) (dl : DequeLaws x.deque)
    (MAX_FRAME QUEUE_DEPTH : ℕ) {D F E : Type 0} {fs : Files D F E} (l : FilesLaws fs)
    (limit : ℕ) where
  -- The whole queue is in the groups, or `drain` failed.
  abbrev pub Stores :
      List (List StoredRecord)
      → List StoredRecord
      → ℕ
      → Result ℕ Error × Pipeline × (FileStorage F × D)
      → Type 0
  Stores gs q count r =
      ((r.0 ≡ ok (count + length q)) × Holds x k pl l limit (places x k pl limit gs q) r.2.0 r.2.1)
      ⊎ (r.0 ≡ err storage)

  counted :
      (gs : List (List StoredRecord)) (r : StoredRecord) (q : List StoredRecord) (count : ℕ)
      (result : Result ℕ Error × Pipeline × (FileStorage F × D))
      → Stores (place x k pl limit gs r) q (count + 1) result
      → Stores gs (r ∷ q) count result
  unfolding places
  counted gs r q count result (inl (returned, holds)) =
      inl (returned ∙ ap {A = ℕ} {B = Result ℕ Error} ok (omega arith), holds)
  counted gs r q count result (inr fails) = inr fails

  pub drained-Holds :
      (q : List StoredRecord) (gs : List (List StoredRecord)) (p : Pipeline) (s : FileStorage F)
      (d : D) (count : ℕ)
      → Holds x k pl l limit gs s d
      → length gs + length q < 2 ^ 32
      → Stores gs q count
          (drained x k pl dl MAX_FRAME QUEUE_DEPTH (file_storage fs) p (s, d) q count)
  unfolding drained file_storage places
  drained-Holds [] gs p s d count h small =
      let kept = flush-Holds x k pl l limit gs s d h in
      elim (Result-cases (flush fs (s, d)).0) [
        | inr (e, fails) ↦ inr (rw (fails, drained) refl)
        | inl (_, done) ↦ rw (done, drained) (inl (ap ok (omega arith), kept))
      ]
  drained-Holds (r ∷ q) gs p s d count h small =
      elim (write-Holds x k pl l limit gs r s d h (omega arith)) [
        | inr (e, fails) ↦ inr (rw (fails, drained) refl)
        | inl (done, h') ↦
            let w = write fs (s, d) (stored x k pl r) in
            let p' = with_queue x k pl p q in
            rw (done, drained)
              (counted gs r q count
                (drained x k pl dl MAX_FRAME QUEUE_DEPTH (file_storage fs) p' (w.1, w.2) q
                  (count + 1))
                (drained-Holds q (place x k pl limit gs r) p' w.1 w.2 (count + 1) h'
                  (omega (arith, length-place x k pl limit gs r))))
      ]

  -- `drain` over segment files that hold some groups returns the number of records in the queue, and
  -- the files then hold these groups and the queue's records, each one in the newest segment while
  -- that stays within the limit, and in a new one otherwise; or it fails with `Error::Storage`.
  -- The queue's records are well formed, and the segments' indices fit in 32 bits.
  pub drain-Holds :
      (gs : List (List StoredRecord)) (p : Pipeline) (s : FileStorage F) (d : D)
      → Holds x k pl l limit gs s d
      → All IsStoredRecord p.ringbuf.queue
      → length gs + length p.ringbuf.queue < 2 ^ 32
      → (result : Result ℕ Error) × (p' : Pipeline) × (s' : FileStorage F) × (d' : D) × (drain x
            MAX_FRAME QUEUE_DEPTH
            (file_storage fs)
            p
            (s, d)
          ≡ ret (result, p', (s', d')))
        × (((result ≡ ok (length p.ringbuf.queue))
              × Holds x k pl l limit (places x k pl limit gs p.ringbuf.queue) s' d')
            ⊎ (result ≡ err storage))
  drain-Holds gs p s d h good small =
      let q = p.ringbuf.queue in
      let r = drained x k pl dl MAX_FRAME QUEUE_DEPTH (file_storage fs) p (s, d) q 0 in
      (
        r.0,
        r.1,
        r.2.0,
        r.2.1,
        drain-drained x k pl dl MAX_FRAME QUEUE_DEPTH (file_storage fs) p (s, d) good,
        elim (drained-Holds q gs p s d 0 h small) [
          | inl (returned, holds) ↦
              inl (returned ∙ ap {A = ℕ} {B = Result ℕ Error} ok (omega arith), holds)
          | inr fails ↦ inr fails
        ],
      )

  -- Whatever the disk holds, `drain` into new segment files fails with `Error::Storage`, or returns
  -- the number of records, and the queue is cut into groups, in order, of which each stays within
  -- the limit or is a single record, with one segment for each group, whose file reads as it. The
  -- queue's records are well formed and fewer than 2 ^ 32.
  pub drain-ReadsBack :
      (crcl : CrcLaws (2 ^ 32) x.crc32) (p : Pipeline) (d : D)
      → All IsStoredRecord p.ringbuf.queue
      → length p.ringbuf.queue < 2 ^ 32
      → (result : Result ℕ Error) × (p' : Pipeline) × (s' : FileStorage F) × (d' : D) × (drain x
            MAX_FRAME QUEUE_DEPTH
            (file_storage fs)
            p
            (FileStorage.new fs limit, d)
          ≡ ret (result, p', (s', d')))
        × (((result ≡ ok (length p.ringbuf.queue))
              × (gs : List (List StoredRecord)) × (in_order gs ≡ p.ringbuf.queue)
              × All (IsFitting x k pl limit) gs
              × (s'.segment_index ≡ length gs)
              × ReadsBack x k pl l d' gs)
            ⊎ (result ≡ err storage))
  unfolding in_order
  drain-ReadsBack crcl p d good small =
      let q = p.ringbuf.queue in
      let (result, p', s', d', run, outcome) =
        drain-Holds [] p (FileStorage.new fs limit) d (new-Holds x k pl l limit d) good
          (omega arith) in
      let gs = places x k pl limit [] q in
      let ordered : in_order gs ≡ q = in_order-places x k pl limit q [] in
      (
        result,
        p',
        s',
        d',
        run,
        elim outcome [
          | inr fails ↦ inr fails
          | inl (returned, h) ↦ inl (
            returned,
            gs,
            ordered,
            places-IsFitting x k pl limit q [] tt,
            h.index,
            OnDisk-ReadsBack x k pl l crcl gs d' h.files
                (subst (All IsStoredRecord) (sym ordered) good),
          )
        ],
      )
