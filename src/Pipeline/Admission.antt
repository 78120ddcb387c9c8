-- ===== src/Pipeline/Admission.antt =====
-- Which records `ingest` lets into the queue, and how it counts them.
use rust_telemetry_logger.Prelude.{
  ℕ, ◌<◌, ◌^◌, ◌≡◌, ◌⊎◌, subst, refl, [], ◌∷◌, ◌++◌, Bool-cases, inl, inr, true, length, ltb,
  ltb→lt, add_u64,
}
use rust_telemetry_logger.Error.{
  Outcome, accepted, rejected, Reason, crc, bad_length, sequence_gap, filtered,
}
use rust_telemetry_logger.External.Heapless.{DequeLaws}
use rust_telemetry_logger.Filter.{allow}
use rust_telemetry_logger.Frame.{Frame, IsFrame}
use rust_telemetry_logger.Framer.{
  FrameOutput, incomplete, complete, overflow, cobs_error, parse_error,
}
use rust_telemetry_logger.Framer.Invariant.{IsOutput}
use rust_telemetry_logger.Pipeline.{
  Crates, Pipeline, record_of, count_rejected, count_ok, enqueue, settle, handle,
}
use rust_telemetry_logger.RingBuf.Queue.{push_lem}
use rust_telemetry_logger.Stats.{Stats}
use rust_telemetry_logger.Validator.{check}
use rust_telemetry_logger.Validator.Accept.{IsSound, check_accepts_iff}

count_rejected-keeps :
    (s : Stats) (r : Reason)
    → ((count_rejected s r).ok ≡ s.ok) × ((count_rejected s r).write_fail ≡ s.write_fail)
unfolding count_rejected
count_rejected-keeps s (crc expected actual) = (refl, refl)
count_rejected-keeps s bad_length = (refl, refl)
count_rejected-keeps s (sequence_gap expected got) = (refl, refl)
count_rejected-keeps s filtered = (refl, refl)

module _ (x : Crates) where
  module _ (dl : DequeLaws x.deque) (MAX_FRAME N : ℕ) (small : N < 2 ^ 32) where
    -- The handler leaves the queue and the counters of accepted frames and of failed writes alone.
    abbrev pub Stays : Pipeline → Pipeline → Type 0
    Stays p q =
        (q.ringbuf.queue ≡ p.ringbuf.queue)
        × (q.stats.ok ≡ p.stats.ok)
        × (q.stats.write_fail ≡ p.stats.write_fail)
        × (q.filter ≡ p.filter)

    -- The record of a frame is queued, and counted; the queue had room for it.
    abbrev pub Grows : ℕ → Pipeline → Frame → Pipeline → Type 0
    Grows now p f q =
        (allow p.filter f ≡ true)
        × (length p.ringbuf.queue < N)
        × (q.ringbuf.queue ≡ p.ringbuf.queue ++ (record_of now f ∷ []))
        × (q.stats.ok ≡ add_u64 p.stats.ok 1)
        × (q.stats.write_fail ≡ p.stats.write_fail)
        × (q.filter ≡ p.filter)

    enqueue_cases :
        (now : ℕ) (p : Pipeline) (f : Frame)
        → let q = enqueue x MAX_FRAME N now p f in Stays p q ⊎ Grows now p f q
    unfolding enqueue count_ok
    enqueue_cases now p f = elim (Bool-cases (allow p.filter f)) [
      | inr stops ↦ rw stops (inl (refl, refl, refl, refl))
      | inl passes ↦ rw passes (
          rw (push_lem dl N p.ringbuf (record_of now f) small)
            (elim (Bool-cases (ltb (length p.ringbuf.queue) N)) [
              | inl room ↦ rw room (inr (refl, ltb→lt _ _ room, refl, refl, refl, refl))
              | inr full ↦ rw full (inl (refl, refl, refl, refl))
            ]))
    ]

    settle_cases :
        (now : ℕ) (p : Pipeline) (o : Outcome Frame)
        → let q = settle x MAX_FRAME N now p o in
          Stays p q ⊎ ((f : Frame) × (o ≡ accepted f) × Grows now p f q)
    unfolding settle
    settle_cases now p (accepted f) = elim (enqueue_cases now p f) [
      | inl stays ↦ inl stays
      | inr grows ↦ inr (f, refl, grows)
    ]
    settle_cases now p (rejected r) =
        inl (refl, (count_rejected-keeps p.stats r).0, (count_rejected-keeps p.stats r).1, refl)

    -- The handler leaves the queue and the counter of accepted frames alone, or queues the record
    -- of a sound frame that the filter lets through.
    pub handle_cases :
        (now : ℕ) (p : Pipeline) (o : FrameOutput)
        → IsOutput o
        → let q = handle x MAX_FRAME N now p o in
          Stays p q ⊎ ((f : Frame) × IsFrame f × IsSound x.crc16 f × Grows now p f q)
    unfolding handle
    handle_cases now p incomplete h = inl (refl, refl, refl, refl)
    handle_cases now p (complete f) h =
        let v = (check x.crc16 p.validator f).1 in
        elim (settle_cases now (record p { validator = v }) (check x.crc16 p.validator f).0) [
          | inl stays ↦ inl stays
          | inr (g, accepts, grows) ↦
              let ((sound, _), same) = (check_accepts_iff x.crc16 p.validator f g).0 accepts in
              inr (g, subst IsFrame same h, subst (IsSound x.crc16) same sound, grows)
        ]
    handle_cases now p overflow h = inl (refl, refl, refl, refl)
    handle_cases now p cobs_error h = inl (refl, refl, refl, refl)
    handle_cases now p parse_error h = inl (refl, refl, refl, refl)
