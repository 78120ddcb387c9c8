-- ===== src/Pipeline/Queue.antt =====
-- The bound of the queue, and the high-water mark in the statistics.
use rust_telemetry_logger.Prelude.{
  ℕ, ◌+◌, ◌≤◌, ◌<◌, ◌^◌, ◌≡◌, ◌∙◌, subst, refl, arith, List, [], ◌∷◌, ret, >>=-eq-ret,
  ret-injective, Bool-cases, inl, inr, length, All, IsU8, false, is_ok, ltb,
}
use rust_telemetry_logger.Error.{
  Outcome, Reason, accepted, rejected, crc, bad_length, sequence_gap, filtered,
}
use rust_telemetry_logger.External.Cobs.{CobsLaws}
use rust_telemetry_logger.External.Heapless.{DequeLaws, ByteVecLaws}
use rust_telemetry_logger.Filter.{allow}
use rust_telemetry_logger.Frame.{Frame}
use rust_telemetry_logger.Framer.{
  FrameOutput, incomplete, complete, overflow, cobs_error, parse_error, feed,
}
use rust_telemetry_logger.Pipeline.{
  Crates, Pipeline, record_of, count_rejected, count_ok, enqueue, settle, handle, ingest_byte,
  ingest_from, ingest,
}
use rust_telemetry_logger.Record.{StoredRecord}
use rust_telemetry_logger.Framer.Invariant.{IsFramer}
use rust_telemetry_logger.Framer.Resync.{feed_all_total}
use rust_telemetry_logger.Pipeline.Ingest.{ingest_from-feed_all}
use rust_telemetry_logger.RingBuf.{RingBuf, push}
use rust_telemetry_logger.RingBuf.Queue.{IsRingBuf, push_lem, push-IsRingBuf}
use rust_telemetry_logger.Stats.{Stats}
use rust_telemetry_logger.Traits.{Clock}
use rust_telemetry_logger.Validator.{check}

-- The queue holds at most `N` records, and the statistics show its high-water mark.
pub record IsQueued (N : ℕ) (p : Pipeline) : Type 0 where
  pub ring : IsRingBuf N p.ringbuf
  pub mark : p.stats.queue_high_water ≡ p.ringbuf.high_water

count_rejected-high_water :
    (s : Stats) (r : Reason) → (count_rejected s r).queue_high_water ≡ s.queue_high_water
unfolding count_rejected
count_rejected-high_water s (crc expected actual) = refl
count_rejected-high_water s bad_length = refl
count_rejected-high_water s (sequence_gap expected got) = refl
count_rejected-high_water s filtered = refl

module _ (x : Crates) (dl : DequeLaws x.deque) (MAX_FRAME N : ℕ) (small : N < 2 ^ 32) where
  push-high_water :
      (rb : RingBuf) (r : StoredRecord)
      → (rb.high_water ≤ (push x.deque N rb r).1.high_water)
        × (is_ok (push x.deque N rb r).0 ≡ false
            → rb.high_water ≡ (push x.deque N rb r).1.high_water)
  push-high_water rb r =
      rw (push_lem dl N rb r small) (elim (Bool-cases (ltb (length rb.queue) N)) [
        | inl room ↦ rw room (ground arith, λ e. cc)
        | inr full ↦ rw full (omega arith, λ e. refl)
      ])

  enqueue-IsQueued :
      (now : ℕ) (p : Pipeline) (f : Frame)
      → IsQueued N p
      → IsQueued N (enqueue x MAX_FRAME N now p f)
  unfolding enqueue count_ok
  enqueue-IsQueued now p f h = elim (Bool-cases (allow p.filter f)) [
    | inr stops ↦ rw stops (record { ring = h.ring; mark = h.mark })
    | inl passes ↦
        let r = record_of now f in
        let ring = push-IsRingBuf dl N p.ringbuf r small h.ring in
        let (grows, stays) = push-high_water p.ringbuf r in
        let mark = h.mark in
        elim (Bool-cases (is_ok (push x.deque N p.ringbuf r).0)) [
          | inl room ↦ rw passes (rw room (record { ring = ring; mark = ground arith }))
          | inr full ↦ rw passes (rw full (record { ring = ring; mark = h.mark ∙ stays full }))
        ]
  ]

  settle-IsQueued :
      (now : ℕ) (p : Pipeline) (o : Outcome Frame)
      → IsQueued N p
      → IsQueued N (settle x MAX_FRAME N now p o)
  unfolding settle
  settle-IsQueued now p (accepted f) h = enqueue-IsQueued now p f h
  settle-IsQueued now p (rejected r) h = record {
    ring = h.ring;
    mark = count_rejected-high_water p.stats r ∙ h.mark;
  }

  handle-IsQueued :
      (now : ℕ) (p : Pipeline) (o : FrameOutput)
      → IsQueued N p
      → IsQueued N (handle x MAX_FRAME N now p o)
  unfolding handle
  handle-IsQueued now p incomplete h = h
  handle-IsQueued now p (complete f) h =
      let (o, v) = check x.crc16 p.validator f in
      settle-IsQueued now (record p { validator = v }) o (record { ring = h.ring; mark = h.mark })
  handle-IsQueued now p overflow h = record { ring = h.ring; mark = h.mark }
  handle-IsQueued now p cobs_error h = record { ring = h.ring; mark = h.mark }
  handle-IsQueued now p parse_error h = record { ring = h.ring; mark = h.mark }

  ingest_from-IsQueued :
      (bytes : List ℕ) (i : ℕ) (clock : Clock) (p p' : Pipeline)
      → IsQueued N p
      → ingest_from x MAX_FRAME N i clock p bytes ≡ ret p'
      → IsQueued N p'
  unfolding ingest_from ingest_byte
  ingest_from-IsQueued [] i clock p p' h e = subst (IsQueued N) (ret-injective e) h
  ingest_from-IsQueued (b ∷ bs) i clock p p' h e =
      let (q, step, later) = >>=-eq-ret (ingest_byte x MAX_FRAME N (clock.now i) p b) _ e in
      let ((o, g), fed, done) = >>=-eq-ret (feed x.vec x.cobs MAX_FRAME p.framer b) _ step in
      let h' =
        handle-IsQueued (clock.now i) (record p { framer = g }) o
          (record { ring = h.ring; mark = h.mark }) in
      ingest_from-IsQueued bs (i + 1) clock q p' (subst (IsQueued N) (ret-injective done) h') later

  -- From a framer that satisfies its invariant, `ingest` takes any bytes without a panic. If before
  -- it the queue is within its bound, its high-water mark lies between its length and its capacity,
  -- below 2 ^ 32, and the statistics show that mark, then the same holds after it.
  pub ingest-IsQueued :
      (vl : ByteVecLaws x.vec) (k : CobsLaws x.cobs) (clock : Clock) (bytes : List ℕ) (p : Pipeline)
      → IsFramer MAX_FRAME p.framer
      → All IsU8 bytes
      → IsQueued N p
      → (p' : Pipeline) × (ingest x MAX_FRAME N clock p bytes ≡ ret p') × IsQueued N p'
  unfolding ingest
  ingest-IsQueued vl k clock bytes p hf b h =
      let (os, fr, run, _, _, _) = feed_all_total vl k MAX_FRAME bytes p.framer hf b in
      let returns = ingest_from-feed_all x MAX_FRAME N bytes 0 clock p os fr run in
      (_, returns, ingest_from-IsQueued bytes 0 clock p _ h returns)
