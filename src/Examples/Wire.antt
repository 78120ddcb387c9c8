-- ===== src/Examples/Wire.antt =====
-- The theorems on frames, the framer, the validator and the filter, at concrete frames.
use rust_telemetry_logger.Prelude.{
  ℕ, ◌+◌, ◌≤◌, ◌<◌, ◌≡◌, ◌↔◌, ◌⊎◌, refl, arith, true, List, [], ◌∷◌, ◌++◌, take, index,
  length-zeroed, drop, map, none, some, ret, ltb, if◌then◌else◌, length, All, IsU8, zeroed,
  wrapping_add_u32,
}
use rust_telemetry_logger.Error.{accepted}
use rust_telemetry_logger.Examples.Stuffing.{cobs}
use rust_telemetry_logger.Examples.Stuffing.Laws.{cobs-laws}
use rust_telemetry_logger.Examples.Checksums.{crc16_ibm_sdlc, crc16_ibm_sdlc-laws}
use rust_telemetry_logger.Examples.Containers.{byte_vec, byte_vec-laws}
use rust_telemetry_logger.Examples.Values.{
  reading, sensor, event, sensor-IsFrame, event-IsFrame, policy,
}
use rust_telemetry_logger.Filter.{allow}
use rust_telemetry_logger.Filter.Allow.{IsListed, allow_iff}
use rust_telemetry_logger.Frame.{
  Frame, IsFrame, encode_raw, encode_cobs, max_cobs_frame_bytes, raw_len, new as new_frame,
}
use rust_telemetry_logger.External.Cobs.{IsNonzeroU8}
use rust_telemetry_logger.Frame.Layout.{header_bytes, raw_bytes, encode_raw_layout}
use rust_telemetry_logger.Frame.New.{new-IsFrame}
use rust_telemetry_logger.Frame.Wire.{length-body, encode_cobs_bounds}
use rust_telemetry_logger.Framer.{Framer, collecting, complete, new, feed_all}
use rust_telemetry_logger.Framer.Invariant.{IsFramer, IsOutput, IsFramer-new}
use rust_telemetry_logger.Framer.Resync.{feed_all_total, resync}
use rust_telemetry_logger.Framer.RoundTrip.{events, stamped, wire, wires, feed_all-wires}
use rust_telemetry_logger.Protocol.{max_payload, protocol_version}
use rust_telemetry_logger.Validator.{Validator, check, computed_crc}
use rust_telemetry_logger.Validator.Accept.{
  IsSound, check_accepts_iff, check_next_iff, computed_crc-checksum, stamped-IsSound,
}

feed_all-wires_example :
    (os : _) × (feed_all byte_vec cobs 512 new
        (wires crc16_ibm_sdlc cobs-laws (sensor ∷ event ∷ []))
      ≡ ret (os, new))
    × (events os ≡ map (λ f. complete (stamped crc16_ibm_sdlc f)) (sensor ∷ event ∷ []))
feed_all-wires_example =
    feed_all-wires crc16_ibm_sdlc cobs-laws byte_vec-laws 512 (sensor ∷ event ∷ []) new
      (
        (sensor-IsFrame, omega (arith, length-body crc16_ibm_sdlc cobs-laws sensor)),
        ((event-IsFrame, omega (arith, length-body crc16_ibm_sdlc cobs-laws event)), tt),
      )
      refl refl

-- A truncated frame.
abbrev garbage : List ℕ
garbage = 0x0E ∷ 0x01 ∷ 0x02 ∷ []

garbage-IsU8 : All IsU8 garbage
garbage-IsU8 = (omega arith, (omega arith, (omega arith, tt)))

resync_example :
    (os : _) × (fr' : Framer) × (feed_all byte_vec cobs 512 new
        (garbage ++ (0 ∷ wire crc16_ibm_sdlc cobs-laws sensor))
      ≡ ret (os ++ (complete (stamped crc16_ibm_sdlc sensor) ∷ []), fr'))
    × (fr'.state ≡ collecting)
    × (fr'.buf ≡ [])
resync_example =
    resync byte_vec-laws cobs-laws 512 crc16_ibm_sdlc garbage sensor new (IsFramer-new 512)
      garbage-IsU8 sensor-IsFrame (omega (arith, length-body crc16_ibm_sdlc cobs-laws sensor))

feed_all_total_example :
    (os : _) × (f' : Framer) × (feed_all byte_vec cobs 2 new garbage ≡ ret (os, f'))
    × (length os ≡ length garbage)
    × All IsOutput os
    × IsFramer 2 f'
feed_all_total_example =
    feed_all_total byte_vec-laws cobs-laws 2 garbage new (IsFramer-new 2) garbage-IsU8

encode_raw_layout_example : encode_raw crc16_ibm_sdlc sensor (zeroed 491) ≡ (
    if ltb (length (zeroed 491)) (raw_len sensor)
    then ret (none, zeroed 491)
    else ret (
      some (raw_len sensor),
      raw_bytes crc16_ibm_sdlc sensor ++ drop (raw_len sensor) (zeroed 491),
    ))
encode_raw_layout_example = encode_raw_layout crc16_ibm_sdlc sensor (zeroed 491)

new-IsFrame_example :
    ((max_payload < length reading) × (new_frame byte_vec 2 1 7 reading ≡ none))
    ⊎ ((length reading ≤ max_payload)
        × (f : Frame) × (new_frame byte_vec 2 1 7 reading ≡ some f)
        × IsFrame f
        × (f.header.version ≡ protocol_version)
        × (f.header.packet_type ≡ 2)
        × (f.header.severity ≡ 1)
        × (f.header.sequence ≡ 7)
        × (f.payload ≡ reading))
new-IsFrame_example =
    new-IsFrame byte_vec-laws 2 1 7 reading (omega arith) (omega arith) (omega arith)
      (omega arith, (omega arith, (omega arith, tt)))

allow_iff_example : (allow policy sensor ≡ true) ↔ ((1 ≤ 1) × IsListed (some (2 ∷ 3 ∷ [])) 2)
allow_iff_example = allow_iff policy sensor

abbrev at_wrap : Validator
at_wrap = record { last_seq = some 4294967295 }

check_accepts_iff_example :
    ((check crc16_ibm_sdlc at_wrap (stamped crc16_ibm_sdlc event)).0
      ≡ accepted (stamped crc16_ibm_sdlc event))
    ↔ ((IsSound crc16_ibm_sdlc (stamped crc16_ibm_sdlc event) × (0 ≡ wrapping_add_u32 4294967295 1))
        × (stamped crc16_ibm_sdlc event ≡ stamped crc16_ibm_sdlc event))
check_accepts_iff_example =
    check_accepts_iff crc16_ibm_sdlc at_wrap (stamped crc16_ibm_sdlc event)
      (stamped crc16_ibm_sdlc event)

check_next_iff_example :
    ((check crc16_ibm_sdlc
        (check crc16_ibm_sdlc at_wrap (stamped crc16_ibm_sdlc sensor)).1
        (stamped crc16_ibm_sdlc event)).0
      ≡ accepted (stamped crc16_ibm_sdlc event))
    ↔ (0 ≡ wrapping_add_u32 4294967295 1)
check_next_iff_example =
    check_next_iff crc16_ibm_sdlc at_wrap (stamped crc16_ibm_sdlc sensor)
      (stamped crc16_ibm_sdlc event)
      (stamped-IsSound crc16_ibm_sdlc crc16_ibm_sdlc-laws sensor sensor-IsFrame
        (omega arith, omega arith) (omega arith))
      (stamped-IsSound crc16_ibm_sdlc crc16_ibm_sdlc-laws event event-IsFrame
        (omega arith, omega arith) (omega arith))

computed_crc-checksum_example :
    computed_crc crc16_ibm_sdlc sensor ≡ crc16_ibm_sdlc.checksum (header_bytes sensor ++ reading)
computed_crc-checksum_example = computed_crc-checksum crc16_ibm_sdlc crc16_ibm_sdlc-laws sensor

encode_cobs_bounds_example :
    (n : ℕ) × (buf : List ℕ) × (encode_cobs crc16_ibm_sdlc cobs sensor (zeroed 494)
      ≡ ret (some (n + 1), buf))
    × (n + 1 ≤ max_cobs_frame_bytes)
    × (length buf ≡ length (zeroed 494))
    × (index buf n ≡ ret 0)
    × All IsNonzeroU8 (take n buf)
encode_cobs_bounds_example =
    encode_cobs_bounds crc16_ibm_sdlc cobs-laws sensor (zeroed 494) sensor-IsFrame
      (length-zeroed 494)
