-- ===== src/Pipeline.antt =====
-- crates/telemetry-core/src/pipeline.rs: `ingest` and `drain`, and the sizes of config.rs.
pub mod History
pub mod Admits
pub mod Delivery
pub mod Overflow
pub mod Bytes
pub mod Rounds
pub mod Drain
pub mod Counters
pub mod Queue
pub mod Admission
pub mod Stored
pub mod Ingest
use rust_telemetry_logger.Prelude.{
  ℕ, zero, suc, ◌+◌, List, [], ◌∷◌, none, some, Run, ret, diverge, ◌>>=◌, ltb, length,
  if◌then◌else◌, add_u64, Result, ok, err, is_ok, slice, zeroed,
}
use rust_telemetry_logger.External.Cobs.{Cobs}
use rust_telemetry_logger.External.Crc.{Crc}
use rust_telemetry_logger.External.Heapless.{ByteVec, Deque}
use rust_telemetry_logger.External.Postcard.{Postcard}
use rust_telemetry_logger.Error.{
  Error, storage, codec, Outcome, accepted, rejected, Reason, crc, bad_length, sequence_gap,
  filtered,
}
use rust_telemetry_logger.Frame.{Frame}
use rust_telemetry_logger.Framer
use rust_telemetry_logger.Framer.{
  Framer, FrameOutput, incomplete, complete, overflow, cobs_error, parse_error, feed,
}
use rust_telemetry_logger.Validator
use rust_telemetry_logger.Validator.{Validator, check}
use rust_telemetry_logger.Filter.{FilterConfig, allow}
use rust_telemetry_logger.Record.{StoredRecord, v1, encode, max_stored_record_bytes}
use rust_telemetry_logger.RingBuf
use rust_telemetry_logger.RingBuf.{RingBuf, push, pop}
use rust_telemetry_logger.Stats.{Stats, zero_stats}
use rust_telemetry_logger.Traits.{Storage, Clock}

abbrev pub default_max_frame : ℕ
default_max_frame = 512

abbrev pub host_queue_depth : ℕ
host_queue_depth = 64

abbrev pub mcu_queue_depth : ℕ
mcu_queue_depth = 8

-- The crates that the pipeline calls.
pub record Crates : Type 1 where
  pub vec : ByteVec
  pub deque : Deque StoredRecord
  pub cobs : Cobs
  pub crc16 : Crc
  pub crc32 : Crc
  pub postcard : Postcard StoredRecord

pub record Pipeline : Type 0 where
  pub framer : Framer
  pub validator : Validator
  pub filter : FilterConfig
  pub ringbuf : RingBuf
  pub stats : Stats

abbrev pub new : FilterConfig → Pipeline
new filter = record {
  framer = Framer.new;
  validator = Validator.new;
  filter = filter;
  ringbuf = RingBuf.new;
  stats = zero_stats;
}

-- The record of an accepted frame, stamped at `timestamp_us`.
unfoldable pub record_of : ℕ → Frame → StoredRecord
record_of timestamp_us frame = v1 (record {
  timestamp_us = timestamp_us;
  sequence = frame.header.sequence;
  packet_type = frame.header.packet_type;
  severity = frame.header.severity;
  payload = frame.payload;
})

-- The counter of each rejection.
unfoldable pub count_rejected : Stats → Reason → Stats
count_rejected s (crc expected actual) = record s { crc_fail = add_u64 s.crc_fail 1 }
count_rejected s bad_length = record s { crc_fail = add_u64 s.crc_fail 1 }
count_rejected s (sequence_gap expected got) = record s { seq_gap = add_u64 s.seq_gap 1 }
count_rejected s filtered = record s { filtered = add_u64 s.filtered 1 }

-- The counters after a successful push.
unfoldable pub count_ok : Stats → RingBuf → Stats
count_ok s rb = record s {
  ok = add_u64 s.ok 1;
  queue_high_water =
      if ltb s.queue_high_water rb.high_water then rb.high_water else s.queue_high_water;
}

-- `MAX_FRAME` and `QUEUE_DEPTH` are the capacities of the framer and of the queue.
module _ (x : Crates) (MAX_FRAME QUEUE_DEPTH : ℕ) where
  -- A frame that passed the validator.
  unfoldable pub enqueue : ℕ → Pipeline → Frame → Pipeline
  enqueue now p frame =
      if allow p.filter frame
      then (let (pushed, rb) = push x.deque QUEUE_DEPTH p.ringbuf (record_of now frame) in
          if is_ok pushed
          then record p { ringbuf = rb; stats = count_ok p.stats rb }
          else record p {
            ringbuf = rb;
            stats = record p.stats { dropped = add_u64 p.stats.dropped 1 };
          })
      else record p { stats = record p.stats { filtered = add_u64 p.stats.filtered 1 } }

  unfoldable pub settle : ℕ → Pipeline → Outcome Frame → Pipeline
  settle now p (accepted frame) = enqueue now p frame
  settle now p (rejected reason) = record p { stats = count_rejected p.stats reason }

  -- What `ingest` does with the framer's output.
  unfoldable pub handle : ℕ → Pipeline → FrameOutput → Pipeline
  handle now p incomplete = p
  handle now p (complete frame) =
      let (outcome, validator) = check x.crc16 p.validator frame in
      settle now (record p { validator = validator }) outcome
  handle now p overflow = record p {
    stats = record p.stats { crc_fail = add_u64 p.stats.crc_fail 1 };
  }
  handle now p cobs_error = record p {
    stats = record p.stats { crc_fail = add_u64 p.stats.crc_fail 1 };
  }
  handle now p parse_error = record p {
    stats = record p.stats { crc_fail = add_u64 p.stats.crc_fail 1 };
  }

  unfoldable pub ingest_byte : ℕ → Pipeline → ℕ → Run Pipeline
  ingest_byte now p byte = do
    (out, framer) ← feed x.vec x.cobs MAX_FRAME p.framer byte
    ret (handle now (record p { framer = framer }) out)

  -- The instant of a byte is its place: what the clock shows while the byte is processed.
  unfoldable pub ingest_from : ℕ → Clock → Pipeline → List ℕ → Run Pipeline
  ingest_from i clock p [] = ret p
  ingest_from i clock p (byte ∷ bytes) = do
    p' ← ingest_byte (clock.now i) p byte
    ingest_from (i + 1) clock p' bytes

  unfoldable pub ingest : Clock → Pipeline → List ℕ → Run Pipeline
  unfolding ingest_from
  ingest clock p bytes = ingest_from 0 clock p bytes

  module _ {S E : Type 0} (backend : Storage S E) where
    unfoldable pub count_write_fail : Pipeline → Pipeline
    count_write_fail p = record p {
      stats = record p.stats { write_fail = add_u64 p.stats.write_fail 1 };
    }

    -- The flush behind the loop of `drain`.
    unfoldable pub finish : Pipeline → S → ℕ → Result ℕ Error × Pipeline × S
    finish p s count =
        let (flushed, s') = backend.flush s in
        if is_ok flushed then (ok count, p, s') else (err storage, count_write_fail p, s')

    -- The loop's body for a popped record, and the rounds after it.
    unfoldable pub write_record :
        Pipeline
        → S
        → List ℕ
        → StoredRecord
        → (S → List ℕ → Run (Result ℕ Error × Pipeline × S))
        → Run (Result ℕ Error × Pipeline × S)
    write_record p s encode_buf r next = do
      (n, buf) ← encode x.postcard x.crc32 x.cobs r encode_buf
      elim n [
        | err e ↦ ret (err codec, p, s)
        | ok n ↦ slice buf 0 n >>= λ bytes.
            let (written, s') = backend.write s bytes in
            elim written [ err e ↦ ret (err storage, count_write_fail p, s') | ok _ ↦ next s' buf ]
      ]

    -- The loop of `drain`, on fuel: each round but the last pops one record.
    unfoldable pub drain_loop : ℕ → Pipeline → S → List ℕ → ℕ → Run (Result ℕ Error × Pipeline × S)
    drain_loop zero p s encode_buf count = diverge
    drain_loop (suc fuel) p s encode_buf count =
        let (popped, rb) = pop x.deque p.ringbuf in
        let p' : Pipeline = record p { ringbuf = rb } in
        elim popped [
          | none ↦ ret (finish p' s count)
          | some r ↦
              write_record p' s encode_buf r (λ s' buf. drain_loop fuel p' s' buf (count + 1))
        ]

    unfoldable pub drain : Pipeline → S → Run (Result ℕ Error × Pipeline × S)
    drain p s = drain_loop (length p.ringbuf.queue + 1) p s (zeroed max_stored_record_bytes) 0
