-- ===== src/Examples/Store.antt =====
-- The theorems on records, the queue, the pipeline and segments, at concrete records.
use rust_telemetry_logger.Prelude.{
  ℕ, ◌+◌, ◌≤◌, ◌≡◌, refl, arith, List, [], ◌∷◌, ◌++◌, map, none, ok, ret, ◌>>=◌, length, take, drop,
  All, zeroed, length-zeroed,
}
use rust_telemetry_logger.Examples.Stuffing.{cobs}
use rust_telemetry_logger.Examples.Stuffing.Laws.{cobs-laws}
use rust_telemetry_logger.Examples.Checksums.{
  crc16_ibm_sdlc, crc16_ibm_sdlc-laws, crc32_iso_hdlc, crc32_iso_hdlc-laws,
}
use rust_telemetry_logger.Examples.Containers.{deque-laws, byte_vec, byte_vec-laws}
use rust_telemetry_logger.Examples.Serialiser.{serialiser, serialiser-laws}
use rust_telemetry_logger.Examples.Values.{
  crates, sensor, event, sensor-IsDeliverable, event-IsDeliverable, policy, ticks, ticks-IsU64,
  stored_sensor, stored_sensor-IsStoredRecord,
}
use rust_telemetry_logger.EndToEnd.{read_segment-drain-ingest}
use rust_telemetry_logger.Framer.{Framer, FrameOutput, collecting, feed_all}
use rust_telemetry_logger.Framer.Invariant.{IsFramer, IsFramer-new}
use rust_telemetry_logger.Framer.RoundTrip.{events, wires}
use rust_telemetry_logger.Frame.{Frame}
use rust_telemetry_logger.Pipeline.{Pipeline, new, ingest, ingest_from, drain}
use rust_telemetry_logger.Pipeline.Counters.{ingest-total_frames_seen}
use rust_telemetry_logger.Pipeline.Delivery.{arrivals, last_number, ingest_from-wires}
use rust_telemetry_logger.Pipeline.Bytes.{stored_all}
use rust_telemetry_logger.Pipeline.Drain.{drained, drain-drained}
use rust_telemetry_logger.Record.{StoredRecord, IsStoredRecord, encode, decode}
use rust_telemetry_logger.Record.Format.{stored_body, encode_layout}
use rust_telemetry_logger.Record.RoundTrip.{decode-encode}
use rust_telemetry_logger.Pipeline.Queue.{IsQueued, ingest-IsQueued}
use rust_telemetry_logger.Record.Total.{IsReply, decode_total}
use rust_telemetry_logger.RingBuf.{new as new_ring}
use rust_telemetry_logger.RingBuf.Queue.{put, get, spec, replies, replies-spec}
use rust_telemetry_logger.Segment.{read_segment}
use rust_telemetry_logger.Segment.Read.{read_segment-stored_all}
use rust_telemetry_logger.Stats.{total_frames_seen}
use rust_telemetry_logger.Traits.{CapturingStorage, capturing, capturing_new, failing}

abbrev frames : List Frame
frames = sensor ∷ event ∷ []

read_segment-drain-ingest_example :
    (p p' : Pipeline) × (s : CapturingStorage) × (ingest crates 512 64 ticks
        (new policy)
        (wires crc16_ibm_sdlc cobs-laws frames)
      ≡ ret p)
    × (drain crates 512 64 capturing p capturing_new ≡ ret (ok 2, p', s))
    × (read_segment serialiser crc32_iso_hdlc cobs s.written
        ≡ ret (map (λ r. ok r) (arrivals crates cobs-laws 512 64 0 ticks frames)))
read_segment-drain-ingest_example =
    read_segment-drain-ingest crates cobs-laws serialiser-laws 512 64 crc16_ibm_sdlc-laws
      crc32_iso_hdlc-laws byte_vec-laws (deque-laws StoredRecord) policy ticks frames (omega arith)
      ticks-IsU64 (sensor-IsDeliverable, (event-IsDeliverable, tt)) (tt, (refl, tt)) (omega arith)

ingest_from-wires_example :
    (p' : Pipeline) × (ingest_from crates 512 64 5 ticks
        (new policy)
        (wires crc16_ibm_sdlc cobs-laws frames)
      ≡ ret p')
    × (p'.ringbuf.queue ≡ [] ++ arrivals crates cobs-laws 512 64 5 ticks frames)
    × (p'.framer.state ≡ collecting)
    × (p'.framer.buf ≡ [])
    × (p'.filter ≡ (new policy).filter)
    × (p'.validator.last_seq ≡ last_number none frames)
ingest_from-wires_example =
    ingest_from-wires crates cobs-laws 512 64 crc16_ibm_sdlc-laws byte_vec-laws
      (deque-laws StoredRecord) (omega arith) frames 5 ticks (new policy)
      (sensor-IsDeliverable, (event-IsDeliverable, tt)) (tt, (refl, tt)) (omega arith) refl refl

decode-encode_example :
    (n : ℕ) × (buf' : List ℕ) × (encode serialiser crc32_iso_hdlc cobs stored_sensor (zeroed 512)
      ≡ ret (ok (n + 1), buf'))
    × (n ≤ 506)
    × (decode serialiser crc32_iso_hdlc cobs (take (n + 1) buf') ≡ ret (ok stored_sensor))
    × (decode serialiser crc32_iso_hdlc cobs (take n buf') ≡ ret (ok stored_sensor))
decode-encode_example =
    decode-encode serialiser-laws crc32_iso_hdlc-laws cobs-laws stored_sensor (zeroed 512)
      stored_sensor-IsStoredRecord (omega (arith, length-zeroed 512))

abbrev pub loaded : Pipeline
loaded = record (new policy) {
  ringbuf = record new_ring { queue = stored_sensor ∷ []; high_water = 1 };
}

pub loaded-IsStoredRecord : All IsStoredRecord (stored_sensor ∷ [])
loaded-IsStoredRecord = (stored_sensor-IsStoredRecord, tt)

drain-drained_example :
    drain crates 512 64 failing loaded tt
    ≡ ret (
        drained crates cobs-laws serialiser-laws
          (deque-laws StoredRecord)
          512
          64
          failing
          loaded
          tt
          (stored_sensor ∷ [])
          0)
drain-drained_example =
    drain-drained crates cobs-laws serialiser-laws (deque-laws StoredRecord) 512 64 failing loaded
      tt loaded-IsStoredRecord

read_segment-stored_all_example :
    read_segment serialiser crc32_iso_hdlc cobs
      (stored_all crates cobs-laws serialiser-laws (stored_sensor ∷ []) ++ (3 ∷ 7 ∷ []))
    ≡ (read_segment serialiser crc32_iso_hdlc cobs (3 ∷ 7 ∷ []) >>= λ out.
        ret (ok stored_sensor ∷ out))
read_segment-stored_all_example =
    read_segment-stored_all crates cobs-laws serialiser-laws crc32_iso_hdlc-laws
      (stored_sensor ∷ []) (3 ∷ 7 ∷ []) loaded-IsStoredRecord

-- A delimiter, a body that is no frame, and a delimiter.
abbrev noise : List ℕ
noise = 0 ∷ 2 ∷ 9 ∷ 0 ∷ []

ingest-total_frames_seen_example :
    (os : List FrameOutput) × (fr : Framer) × (p' : Pipeline) × (feed_all byte_vec cobs 512
        (new policy).framer
        noise
      ≡ ret (os, fr))
    × (ingest crates 512 64 ticks (new policy) noise ≡ ret p')
    × (p'.framer ≡ fr)
    × IsFramer 512 p'.framer
    × (total_frames_seen p'.stats ≡ total_frames_seen (new policy).stats + length (events os))
ingest-total_frames_seen_example =
    ingest-total_frames_seen crates 512 64 byte_vec-laws cobs-laws ticks noise (new policy)
      (IsFramer-new 512) (omega arith, (omega arith, (omega arith, (omega arith, tt))))
      (omega arith)

replies-spec_example :
    replies
      (deque-laws StoredRecord)
      1
      new_ring
      (put stored_sensor ∷ put stored_sensor ∷ get ∷ get ∷ [])
    ≡ spec 1 [] (put stored_sensor ∷ put stored_sensor ∷ get ∷ get ∷ [])
replies-spec_example =
    replies-spec (deque-laws StoredRecord) 1
      (put stored_sensor ∷ put stored_sensor ∷ get ∷ get ∷ []) new_ring (omega arith)

encode_layout_example :
    encode serialiser crc32_iso_hdlc cobs stored_sensor (zeroed 512)
    ≡ ret (
      ok (length (stored_body serialiser-laws crc32_iso_hdlc cobs-laws stored_sensor) + 1),
      stored_body serialiser-laws crc32_iso_hdlc cobs-laws stored_sensor
          ++ (0
              ∷ drop
                  (length (stored_body serialiser-laws crc32_iso_hdlc cobs-laws stored_sensor) + 1)
                  (zeroed 512)),
    )
encode_layout_example =
    encode_layout serialiser-laws crc32_iso_hdlc cobs-laws stored_sensor (zeroed 512)
      stored_sensor-IsStoredRecord (omega (arith, length-zeroed 512))

-- Two bytes that are no record.
decode_total_example : IsReply (decode serialiser crc32_iso_hdlc cobs (3 ∷ 7 ∷ []))
decode_total_example = decode_total serialiser crc32_iso_hdlc cobs-laws (3 ∷ 7 ∷ [])

new-IsQueued : IsQueued 64 (new policy)
new-IsQueued = record { ring = record { fits = omega arith; peak = omega arith }; mark = refl }

ingest-IsQueued_example :
    (p' : Pipeline) × (ingest crates 512 64 ticks (new policy) noise ≡ ret p') × IsQueued 64 p'
ingest-IsQueued_example =
    ingest-IsQueued crates (deque-laws StoredRecord) 512 64 (omega arith) byte_vec-laws cobs-laws
      ticks noise (new policy) (IsFramer-new 512)
      (omega arith, (omega arith, (omega arith, (omega arith, tt)))) new-IsQueued
