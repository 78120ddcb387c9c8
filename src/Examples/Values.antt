-- ===== src/Examples/Values.antt =====
-- The frames, records and pipelines of the runs.
use rust_telemetry_logger.Prelude.{ℕ, ◌%◌, ◌^◌, refl, arith, List, [], ◌∷◌, some, IsU64}
use rust_telemetry_logger.Examples.Stuffing.{cobs}
use rust_telemetry_logger.Examples.Stuffing.Laws.{cobs-laws}
use rust_telemetry_logger.Examples.Checksums.{crc16_ibm_sdlc, crc32_iso_hdlc}
use rust_telemetry_logger.Examples.Containers.{byte_vec, deque}
use rust_telemetry_logger.Examples.Serialiser.{serialiser}
use rust_telemetry_logger.Filter.{FilterConfig, allow, contains}
use rust_telemetry_logger.Frame.{Frame, IsFrame}
use rust_telemetry_logger.Frame.Wire.{length-body}
use rust_telemetry_logger.Pipeline.{Crates}
use rust_telemetry_logger.Pipeline.Delivery.{IsDeliverable}
use rust_telemetry_logger.Record.{StoredRecord, v1, IsStoredRecord}
use rust_telemetry_logger.Traits.{Clock}

abbrev pub crates : Crates
crates = record {
  vec = byte_vec;
  deque = deque StoredRecord;
  cobs = cobs;
  crc16 = crc16_ibm_sdlc;
  crc32 = crc32_iso_hdlc;
  postcard = serialiser;
}

abbrev pub reading : List ℕ
reading = 0x00 ∷ 0xAA ∷ 0x00 ∷ []

-- A sensor frame with zero bytes in its payload, and the event behind it.
abbrev pub sensor : Frame
sensor = record {
  header = record {
    version = 1;
    packet_type = 2;
    severity = 1;
    sequence = 4294967295;
    payload_len = 3;
  };
  payload = reading;
  crc_bytes = (0, 0);
}

abbrev pub event : Frame
event = record {
  header = record { version = 1; packet_type = 3; severity = 4; sequence = 0; payload_len = 0 };
  payload = [];
  crc_bytes = (0, 0);
}

pub sensor-IsFrame : IsFrame sensor
sensor-IsFrame = record {
  version = omega arith;
  packet_type = omega arith;
  severity = omega arith;
  sequence = omega arith;
  payload_len = refl;
  payload = (omega arith, (omega arith, (omega arith, tt)));
  fits = omega arith;
}

pub event-IsFrame : IsFrame event
event-IsFrame = record {
  version = omega arith;
  packet_type = omega arith;
  severity = omega arith;
  sequence = omega arith;
  payload_len = refl;
  payload = tt;
  fits = omega arith;
}

-- No debug frames, and sensor data and events only.
abbrev pub policy : FilterConfig
policy = record { min_severity = 1; type_allowlist = some (2 ∷ 3 ∷ []) }

pub sensor-IsDeliverable : IsDeliverable crates cobs-laws 512 64 policy sensor
unfolding allow contains
sensor-IsDeliverable = record {
  frame = sensor-IsFrame;
  known_type = (omega arith, omega arith);
  known_severity = omega arith;
  room = omega (arith, length-body crc16_ibm_sdlc cobs-laws sensor);
  allowed = refl;
}

pub event-IsDeliverable : IsDeliverable crates cobs-laws 512 64 policy event
unfolding allow contains
event-IsDeliverable = record {
  frame = event-IsFrame;
  known_type = (omega arith, omega arith);
  known_severity = omega arith;
  room = omega (arith, length-body crc16_ibm_sdlc cobs-laws event);
  allowed = refl;
}

-- A tick per byte.
abbrev pub ticks : Clock
ticks = record { now = λ n. n % 2 ^ 64 }

pub ticks-IsU64 : (n : ℕ) → IsU64 (ticks.now n)
ticks-IsU64 n = omega arith

abbrev pub stored_sensor : StoredRecord
stored_sensor =
    v1 (record {
      timestamp_us = 1000;
      sequence = 7;
      packet_type = 2;
      severity = 1;
      payload = reading;
    })

pub stored_sensor-IsStoredRecord : IsStoredRecord stored_sensor
stored_sensor-IsStoredRecord = record {
  timestamp_us = omega arith;
  sequence = omega arith;
  packet_type = omega arith;
  severity = omega arith;
  payload = (omega arith, (omega arith, (omega arith, tt)));
  fits = omega arith;
}
