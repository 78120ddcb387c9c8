-- ===== src/Examples/Overflow.antt =====
-- The theorem on a full queue: two frames, and room for one record.
use rust_telemetry_logger.Prelude.{◌≡◌, refl, arith, [], ◌∷◌, ret}
use rust_telemetry_logger.Examples.Checksums.{crc16_ibm_sdlc, crc16_ibm_sdlc-laws}
use rust_telemetry_logger.Examples.Containers.{deque-laws, byte_vec-laws}
use rust_telemetry_logger.Examples.Stuffing.Laws.{cobs-laws}
use rust_telemetry_logger.Examples.Values.{
  crates, sensor, event, sensor-IsDeliverable, event-IsDeliverable, policy, ticks,
}
use rust_telemetry_logger.Frame.{Frame}
use rust_telemetry_logger.Framer.RoundTrip.{wires}
use rust_telemetry_logger.Pipeline.{Pipeline, new, ingest_from}
use rust_telemetry_logger.Pipeline.Delivery.{IsDeliverable}
use rust_telemetry_logger.Pipeline.Overflow.{Truncates, ingest_from-take}
use rust_telemetry_logger.Record.{StoredRecord}

narrow :
    (f : Frame)
    → IsDeliverable crates cobs-laws 512 64 policy f
    → IsDeliverable crates cobs-laws 512 1 policy f
narrow f h = record {
  frame = h.frame;
  known_type = h.known_type;
  known_severity = h.known_severity;
  room = h.room;
  allowed = h.allowed;
}

ingest_from-take_example :
    (p' : Pipeline) × (ingest_from crates 512 1 0 ticks
        (new policy)
        (wires crc16_ibm_sdlc cobs-laws (sensor ∷ event ∷ []))
      ≡ ret p')
    × Truncates crates cobs-laws 512 1 crc16_ibm_sdlc-laws byte_vec-laws
        (deque-laws StoredRecord)
        (omega arith)
        0
        ticks
        (sensor ∷ event ∷ [])
        (new policy)
        p'
ingest_from-take_example =
    ingest_from-take crates cobs-laws 512 1 crc16_ibm_sdlc-laws byte_vec-laws
      (deque-laws StoredRecord) (omega arith) (sensor ∷ event ∷ []) 0 ticks (new policy)
      (narrow sensor sensor-IsDeliverable, (narrow event event-IsDeliverable, tt)) (tt, (refl, tt))
      (omega arith) refl refl (omega arith) (omega arith) (omega arith)
