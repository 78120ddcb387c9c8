-- ===== src/Pipeline/Counters.antt =====
-- Every output of the framer is counted once.
use rust_telemetry_logger.Prelude.{
  ℕ, ◌+◌, ◌-◌, ◌≤◌, ◌<◌, ◌^◌, ◌≡◌, refl, arith, List, [], ◌∷◌, ret, Bool-cases, inl, inr, min,
  length, is_ok, All, IsU8,
}
use rust_telemetry_logger.External.Cobs.{CobsLaws}
use rust_telemetry_logger.External.Heapless.{ByteVecLaws}
use rust_telemetry_logger.Error.{
  Outcome, Reason, accepted, rejected, crc, bad_length, sequence_gap, filtered,
}
use rust_telemetry_logger.Frame.{Frame}
use rust_telemetry_logger.Framer.{
  Framer, FrameOutput, incomplete, complete, overflow, cobs_error, parse_error, feed_all,
}
use rust_telemetry_logger.Framer.Invariant.{IsFramer}
use rust_telemetry_logger.Framer.RoundTrip.{events}
use rust_telemetry_logger.Framer.Resync.{feed_all_total}
use rust_telemetry_logger.Filter.{allow}
use rust_telemetry_logger.RingBuf.{push}
use rust_telemetry_logger.Stats.{Stats, total_frames_seen}
use rust_telemetry_logger.Validator.{check}
use rust_telemetry_logger.Pipeline.{
  Crates, Pipeline, record_of, count_rejected, count_ok, enqueue, settle, handle, ingest,
}
use rust_telemetry_logger.Pipeline.Ingest.{handles, ingest_from-feed_all}
use rust_telemetry_logger.Traits.{Clock}

-- The sum that `total_frames_seen` saturates.
abbrev pub counted : Stats → ℕ
counted s = s.ok + s.dropped + s.crc_fail + s.seq_gap + s.filtered

pub total_frames_seen_lem : (s : Stats) → total_frames_seen s ≡ min (counted s) (2 ^ 64 - 1)
unfolding total_frames_seen
total_frames_seen_lem s = omega arith

count_rejected-counted :
    (s : Stats) (r : Reason) → counted s + 1 < 2 ^ 64 → counted (count_rejected s r) ≡ counted s + 1
unfolding count_rejected
count_rejected-counted s (crc expected actual) h = omega arith
count_rejected-counted s bad_length h = omega arith
count_rejected-counted s (sequence_gap expected got) h = omega arith
count_rejected-counted s filtered h = omega arith

module _ (x : Crates) (MAX_FRAME QUEUE_DEPTH : ℕ) where
  enqueue-counted :
      (now : ℕ) (p : Pipeline) (f : Frame)
      → counted p.stats + 1 < 2 ^ 64
      → counted (enqueue x MAX_FRAME QUEUE_DEPTH now p f).stats ≡ counted p.stats + 1
  unfolding enqueue count_ok
  enqueue-counted now p f h = elim (Bool-cases (allow p.filter f)) [
    | inl passes ↦
        elim (Bool-cases (is_ok (push x.deque QUEUE_DEPTH p.ringbuf (record_of now f)).0)) [
          | inl room ↦ rw (passes, room) (omega arith)
          | inr full ↦ rw (passes, full) (omega arith)
        ]
    | inr stops ↦ rw stops (omega arith)
  ]

  settle-counted :
      (now : ℕ) (p : Pipeline) (o : Outcome Frame)
      → counted p.stats + 1 < 2 ^ 64
      → counted (settle x MAX_FRAME QUEUE_DEPTH now p o).stats ≡ counted p.stats + 1
  unfolding settle
  settle-counted now p (accepted f) h = enqueue-counted now p f h
  settle-counted now p (rejected r) h = count_rejected-counted p.stats r h

  handle-counted :
      (now : ℕ) (p : Pipeline) (o : FrameOutput)
      → counted p.stats + 1 < 2 ^ 64
      → counted (handle x MAX_FRAME QUEUE_DEPTH now p o).stats
        ≡ counted p.stats + length (events (o ∷ []))
  unfolding handle events
  handle-counted now p incomplete h = omega arith
  handle-counted now p (complete f) h =
      let (o, v) = check x.crc16 p.validator f in
      settle-counted now (record p { validator = v }) o h
  handle-counted now p overflow h = omega arith
  handle-counted now p cobs_error h = omega arith
  handle-counted now p parse_error h = omega arith

  events-cons :
      (o : FrameOutput) (os : List FrameOutput)
      → length (events (o ∷ os)) ≡ length (events (o ∷ [])) + length (events os)
  unfolding events
  events-cons incomplete os = omega arith
  events-cons (complete f) os = omega arith
  events-cons overflow os = omega arith
  events-cons cobs_error os = omega arith
  events-cons parse_error os = omega arith

  events-le : (o : FrameOutput) → length (events (o ∷ [])) ≤ 1
  unfolding events
  events-le incomplete = omega arith
  events-le (complete f) = omega arith
  events-le overflow = omega arith
  events-le cobs_error = omega arith
  events-le parse_error = omega arith

  length-events_le : (os : List FrameOutput) → length (events os) ≤ length os
  length-events_le [] = unfold events in omega arith
  length-events_le (o ∷ os) =
      let this = events-le o in
      let later = length-events_le os in omega (arith, this, later, events-cons o os)

  -- Each of the framer's outputs but `Incomplete` adds one to exactly one of the five counters.
  pub handles-counted :
      (os : List FrameOutput) (i : ℕ) (clock : Clock) (p : Pipeline)
      → counted p.stats + length os < 2 ^ 64
      → counted (handles x MAX_FRAME QUEUE_DEPTH i clock p os).stats
        ≡ counted p.stats + length (events os)
  unfolding handles
  handles-counted [] i clock p h = unfold events in omega arith
  handles-counted (o ∷ os) i clock p h =
      let q = handle x MAX_FRAME QUEUE_DEPTH (clock.now i) p o in
      let step = handle-counted (clock.now i) p o (omega arith) in
      let le = events-le o in
      let later = handles-counted os (i + 1) clock q (omega (arith, step, le)) in
      omega (arith, step, later, events-cons o os)

  -- From a framer that satisfies its invariant, `ingest` takes any bytes without a panic, keeps the
  -- invariant and leaves the framer's last state, and `total_frames_seen` then counts exactly the
  -- framer's outputs but `Incomplete`, as long as the counters have room for one count per byte.
  pub ingest-total_frames_seen :
      (vl : ByteVecLaws x.vec) (k : CobsLaws x.cobs) (clock : Clock) (bytes : List ℕ) (p : Pipeline)
      → IsFramer MAX_FRAME p.framer
      → All IsU8 bytes
      → counted p.stats + length bytes < 2 ^ 64
      → (os : List FrameOutput) × (fr : Framer) × (p' : Pipeline) × (feed_all x.vec x.cobs MAX_FRAME
            p.framer bytes
          ≡ ret (os, fr))
        × (ingest x MAX_FRAME QUEUE_DEPTH clock p bytes ≡ ret p')
        × (p'.framer ≡ fr)
        × IsFramer MAX_FRAME p'.framer
        × (total_frames_seen p'.stats ≡ total_frames_seen p.stats + length (events os))
  ingest-total_frames_seen vl k clock bytes p h b room =
      let (os, fr, run, len, _, h') = feed_all_total vl k MAX_FRAME bytes p.framer h b in
      let q = handles x MAX_FRAME QUEUE_DEPTH 0 clock p os in
      let total = handles-counted os 0 clock p (omega (arith, len)) in
      (
        os,
        fr,
        record q { framer = fr },
        run,
        unfold ingest in (ingest_from-feed_all x MAX_FRAME QUEUE_DEPTH bytes 0 clock p os fr run),
        refl,
        h',
        omega (
          arith,
          total,
          total_frames_seen_lem p.stats,
          total_frames_seen_lem q.stats,
          length-events_le os,
          len,
        ),
      )
