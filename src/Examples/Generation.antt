-- ===== src/Examples/Generation.antt =====
-- The theorems on the packet generator, with a counter for its random numbers.
use rust_telemetry_logger.Prelude.{
  ℕ, min, ◌+◌, ◌-◌, ◌%◌, ◌^◌, ◌≡◌, arith, refl, true, List, [], ◌∷◌, map, none, ok, ret, length,
  zeroed, length-zeroed, All, slice, index, set_index, copy_at,
}
use rust_telemetry_logger.Examples.Checksums.{
  crc_bytes, crc16_ibm_sdlc, crc16_ibm_sdlc-laws, crc32_iso_hdlc, crc32_iso_hdlc-laws,
}
use rust_telemetry_logger.Examples.Containers.{deque-laws, byte_vec, byte_vec-laws}
use rust_telemetry_logger.Examples.Stuffing.{cobs, stuff}
use rust_telemetry_logger.Examples.Stuffing.Laws.{cobs-laws}
use rust_telemetry_logger.EndToEnd.Generated.{IsGiving, read_segment-generate}
use rust_telemetry_logger.Examples.Hosting.{chunks, never, listening}
use rust_telemetry_logger.Examples.Serialiser.{serialiser, serialiser-laws}
use rust_telemetry_logger.Examples.Values.{crates, ticks, ticks-IsU64}
use rust_telemetry_logger.Filter.{FilterConfig}
use rust_telemetry_logger.Filter.Allow.{allow_iff}
use rust_telemetry_logger.Framer.RoundTrip.{wire}
use rust_telemetry_logger.Generator.Corruption.{drawn, IsCorrupted, apply_corruption-IsCorrupted}
use rust_telemetry_logger.Generator.Rounds.{IsGenState}
use rust_telemetry_logger.Generator.Stream.{IsEmitted, generate-IsEmitted, generate-wires}
use rust_telemetry_logger.Host.{HostState, run_loop}
use rust_telemetry_logger.Host.Batches.{arrived}
use rust_telemetry_logger.Pipeline.{new as new_pipeline}
use rust_telemetry_logger.Record.{StoredRecord}
use rust_telemetry_logger.Segment.{read_segment}
use rust_telemetry_logger.Traits.{CapturingStorage, capturing}
use rust_telemetry_logger.Frame.{Frame, encode_cobs, encode_raw, compute_crc, new, raw_len}
use rust_telemetry_logger.Generator.{
  Rng, CorruptMode, bad_crc, truncate, seq_gap, burst, GenStats, CorruptResult, GenState, generate,
  gen_round, build_frame, random_bytes, skip_sequence, has_seq_gap, apply_corruption, emit_result,
}
use rust_telemetry_logger.Generator.Frames.{RngLaws, Numbered}

-- A counter: each draw is the count, cut to the range, and every comparison with the rate holds.
abbrev pub counter : Rng ℕ
counter = record {
  below = λ g. (true, g + 1);
  range = λ lo hi g. (min (lo + g) (hi - 1), g + 1);
  byte = λ g. (g % 256, g + 1);
}

pub counter-laws : RngLaws counter
counter-laws = record {
  range-lt = λ lo hi g h. (omega arith, omega arith);
  byte-IsU8 = λ g. omega arith;
}

abbrev no_stats : GenStats
no_stats = record { valid = 0; bad_crc = 0; truncated = 0; seq_gap = 0; burst_extra = 0 }

abbrev start : GenState ℕ
start = record { rng = 0; seq = 0; stats = no_stats; buf = zeroed 494 }

-- What it sends.
abbrev sent : List (List ℕ)
sent =
    (4 ∷ 1 ∷ 1 ∷ 1 ∷ 1 ∷ 1 ∷ 1 ∷ 2 ∷ 2 ∷ 5 ∷ 3 ∷ 4 ∷ 165 ∷ 110 ∷ 0 ∷ [])
    ∷ (5 ∷ 1 ∷ 5 ∷ 3 ∷ 1 ∷ 1 ∷ 1 ∷ 2 ∷ 7 ∷ 10 ∷ 8 ∷ 9 ∷ 10 ∷ 11 ∷ 12 ∷ 13 ∷ 14 ∷ 220 ∷ 165 ∷ 0 ∷ [])
    ∷ []

abbrev after : GenState ℕ
after = record {
  rng = 15;
  seq = 2;
  stats = record no_stats { valid = 2 };
  buf =
      5
      ∷ 1
      ∷ 5
      ∷ 3
      ∷ 1
      ∷ 1
      ∷ 1
      ∷ 2
      ∷ 7
      ∷ 10
      ∷ 8
      ∷ 9
      ∷ 10
      ∷ 11
      ∷ 12
      ∷ 13
      ∷ 14
      ∷ 220
      ∷ 165
      ∷ 0
      ∷ zeroed 474;
}

generate_two : generate counter byte_vec crc16_ibm_sdlc cobs 2 [] 5 start ≡ ret (sent, after)
unfolding generate gen_round build_frame random_bytes skip_sequence has_seq_gap apply_corruption
    emit_result encode_cobs encode_raw compute_crc new raw_len slice index zeroed set_index copy_at
    stuff crc_bytes
generate_two = refl

start-IsGenState : IsGenState start
start-IsGenState = record { seq = omega arith; buf = length-zeroed 494 }

abbrev all_modes : List CorruptMode
all_modes = seq_gap ∷ bad_crc ∷ truncate ∷ burst ∷ []

apply_corruption-IsCorrupted_example :
    (r : CorruptResult) × (g' : ℕ) × (s' : GenStats) × (apply_corruption counter
        (2 ∷ 9 ∷ 0 ∷ [])
        all_modes
        5
        7
        no_stats
      ≡ ret (r, g', s'))
    × IsCorrupted counter
        (2 ∷ 9 ∷ 0 ∷ [])
        5
        no_stats
        (drawn counter all_modes 7).0
        (drawn counter all_modes 7).1
        r
        g'
        s'
apply_corruption-IsCorrupted_example =
    apply_corruption-IsCorrupted counter-laws (2 ∷ 9 ∷ 0 ∷ []) 5 all_modes 7 no_stats

generate-IsEmitted_example :
    (emitted : List (List ℕ)) × (st' : GenState ℕ) × (generate counter byte_vec crc16_ibm_sdlc cobs
        3 all_modes 5 start
      ≡ ret (emitted, st'))
    × All (IsEmitted counter-laws byte_vec-laws crc16_ibm_sdlc cobs-laws) emitted
    × IsGenState st'
generate-IsEmitted_example =
    generate-IsEmitted counter-laws byte_vec-laws crc16_ibm_sdlc cobs-laws 3 all_modes 5 start
      start-IsGenState

generate-wires_example :
    (fs : List Frame) × (st' : GenState ℕ) × (generate counter byte_vec crc16_ibm_sdlc cobs 2 [] 5
        start
      ≡ ret (map (wire crc16_ibm_sdlc cobs-laws) fs, st'))
    × Numbered counter-laws 0 fs
    × (length fs ≡ 2)
    × (st'.stats ≡ record no_stats { valid = (0 + 2) % 2 ^ 32 })
generate-wires_example =
    generate-wires counter-laws byte_vec-laws crc16_ibm_sdlc cobs-laws 2 5 start start-IsGenState
      (omega arith)

abbrev lenient : FilterConfig
lenient = record { min_severity = 0; type_allowlist = none }

abbrev receiving : HostState (List (List ℕ)) CapturingStorage
receiving = record listening { source = sent; pipeline = new_pipeline lenient }

sent-IsGiving : IsGiving chunks sent sent
sent-IsGiving = IsGiving.gives _ refl (IsGiving.gives _ refl (IsGiving.ends [] refl))

read_segment-generate_example :
    (fs : List Frame) × (h' : HostState (List (List ℕ)) CapturingStorage) × Numbered counter-laws 0
      fs
    × (length fs ≡ 2)
    × (sent ≡ map (wire crc16_ibm_sdlc cobs-laws) fs)
    × (run_loop crates chunks capturing ticks 10 never 3 receiving ≡ ret (ok tt, h'))
    × (read_segment serialiser crc32_iso_hdlc cobs h'.storage.written
        ≡ ret (map (λ r. ok r) (arrived crates cobs-laws ticks 0 fs)))
read_segment-generate_example =
    read_segment-generate crates cobs-laws chunks serialiser-laws (deque-laws StoredRecord) ticks 10
      counter-laws crc16_ibm_sdlc-laws crc32_iso_hdlc-laws byte_vec-laws never 2 5 start after sent
      receiving start-IsGenState (omega arith) generate_two sent-IsGiving ticks-IsU64
      (λ f. (allow_iff lenient f).1 (omega arith, tt)) tt
      (record { collects = refl; nothing = refl; queue = refl }) refl
