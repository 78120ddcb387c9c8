-- ===== src/Examples/Hosting.antt =====
-- The theorems on the host's loop, at concrete sources.
use mathlib.Core.List.{flatten}
use rust_telemetry_logger.Prelude.{
  ℕ, suc, arith, refl, ◌≡◌, Bool, false, List, [], ◌∷◌, map, ok, ret, Result, length, All,
  All-append, IsU8,
}
use rust_telemetry_logger.Examples.Checksums.{
  crc16_ibm_sdlc, crc16_ibm_sdlc-laws, crc32_iso_hdlc, crc32_iso_hdlc-laws,
}
use rust_telemetry_logger.Examples.Containers.{deque-laws, byte_vec-laws}
use rust_telemetry_logger.Examples.Serialiser.{serialiser, serialiser-laws}
use rust_telemetry_logger.Examples.Stuffing.{cobs}
use rust_telemetry_logger.Examples.Stuffing.Laws.{cobs-laws}
use rust_telemetry_logger.Examples.Values.{
  crates, sensor, event, sensor-IsFrame, sensor-IsDeliverable, event-IsDeliverable, policy, ticks,
  ticks-IsU64,
}
use rust_telemetry_logger.Frame.{Frame}
use rust_telemetry_logger.Frame.Layout.{raw_bytes}
use rust_telemetry_logger.Frame.Wire.{body, raw_bytes-IsU8}
use rust_telemetry_logger.External.Cobs.{IsNonzeroU8}
use rust_telemetry_logger.Framer.Invariant.{IsFramer-new}
use rust_telemetry_logger.Framer.RoundTrip.{wire, wires}
use rust_telemetry_logger.Host.{HostState, HostError, run_loop}
use rust_telemetry_logger.Host.Batches.{IsFeeding, IsWaiting, arrived}
use rust_telemetry_logger.Host.Delivery.{read_segment-run_loop}
use rust_telemetry_logger.Host.Kept.{read_segment-Accounts}
use rust_telemetry_logger.Host.Follows.{Accounts}
use rust_telemetry_logger.Host.Loop.{IsFinite, given, run_loop_total}
use rust_telemetry_logger.Pipeline.{default_max_frame, new}
use rust_telemetry_logger.Pipeline.Stored.{IsRunning}
use rust_telemetry_logger.Record.{StoredRecord}
use rust_telemetry_logger.Segment.{read_segment}
use rust_telemetry_logger.Traits.{PacketSource, CapturingStorage, capturing, capturing_new, failing}

-- A source that gives some chunks and then the end of its input.
abbrev read_chunk : List (List ℕ) → ℕ → Result (List ℕ) (Unit {0}) × List (List ℕ)
read_chunk [] size = (ok [], [])
read_chunk (c ∷ cs) size = (ok c, cs)

abbrev pub chunks : PacketSource (List (List ℕ)) (Unit {0})
chunks = record { read = read_chunk }

abbrev pub never : Unit {0} → Bool
never e = false

abbrev pub state_of : {T : Type 0} → List (List ℕ) → T → HostState (List (List ℕ)) T
state_of source storage = record {
  source = source;
  pipeline = new policy;
  storage = storage;
  instant = 0;
  last_print_ok = 0;
  printed = [];
}

abbrev noisy : HostState (List (List ℕ)) (Unit {0})
noisy = state_of ((0 ∷ 2 ∷ []) ∷ (9 ∷ 0 ∷ []) ∷ []) tt

noisy-IsFinite : IsFinite chunks 2 noisy.source
noisy-IsFinite =
    IsFinite.gives ((9 ∷ 0 ∷ []) ∷ []) 0 (2 ∷ []) refl (omega arith, (omega arith, tt))
      (IsFinite.gives [] 9 (0 ∷ []) refl (omega arith, (omega arith, tt)) (IsFinite.ends [] refl))

noisy-IsRunning : IsRunning default_max_frame (new policy)
noisy-IsRunning = record { framer = IsFramer-new 512; queue = tt }

run_loop_total_example :
    (result : Result (Unit {0}) (HostError (Unit {0}) (Unit {0}))) × (h' : HostState
      (List (List ℕ))
      (Unit {0}))
    × (run_loop crates chunks failing ticks 10 never 3 noisy ≡ ret (result, h'))
    × IsRunning default_max_frame h'.pipeline
run_loop_total_example =
    run_loop_total crates cobs-laws serialiser-laws (deque-laws StoredRecord) chunks failing ticks
      10 byte_vec-laws never 2 3 noisy ticks-IsU64 noisy-IsFinite (omega arith) noisy-IsRunning

abbrev batches : List (List Frame)
batches = (sensor ∷ []) ∷ (event ∷ []) ∷ []

abbrev on_the_way : List (List ℕ)
on_the_way = map (wires crc16_ibm_sdlc cobs-laws) batches

abbrev pub listening : HostState (List (List ℕ)) CapturingStorage
listening = state_of on_the_way capturing_new

listening-IsFeeding : IsFeeding crates cobs-laws chunks batches on_the_way
listening-IsFeeding =
    IsFeeding.gives (wires crc16_ibm_sdlc cobs-laws (event ∷ []) ∷ []) refl (omega arith)
      (IsFeeding.gives [] refl (omega arith) (IsFeeding.ends [] refl))

new-IsWaiting : IsWaiting (new policy)
new-IsWaiting = record { collects = refl; nothing = refl; queue = refl }

read_segment-run_loop_example :
    (h' : HostState (List (List ℕ)) CapturingStorage) × (run_loop crates chunks capturing ticks 10
        never
        (suc (length batches))
        listening
      ≡ ret (ok tt, h'))
    × (read_segment serialiser crc32_iso_hdlc cobs h'.storage.written
        ≡ ret (map (λ r. ok r) (arrived crates cobs-laws ticks 0 (flatten batches))))
unfolding flatten
read_segment-run_loop_example =
    read_segment-run_loop crates cobs-laws serialiser-laws (deque-laws StoredRecord) chunks ticks 10
      crc16_ibm_sdlc-laws crc32_iso_hdlc-laws byte_vec-laws never batches listening ticks-IsU64
      listening-IsFeeding (sensor-IsDeliverable, (event-IsDeliverable, tt)) (tt, (refl, tt))
      new-IsWaiting refl

nonzero-IsU8 : (bytes : List ℕ) → All IsNonzeroU8 bytes → All IsU8 bytes
nonzero-IsU8 [] h = tt
nonzero-IsU8 (b ∷ bytes) ((small, pos), h) = (small, nonzero-IsU8 bytes h)

-- The tail of a frame, and then a whole one.
abbrev late : HostState (List (List ℕ)) CapturingStorage
late = state_of ((7 ∷ 0 ∷ wire crc16_ibm_sdlc cobs-laws sensor) ∷ []) capturing_new

pub late-IsU8 : All IsU8 (wire crc16_ibm_sdlc cobs-laws sensor)
late-IsU8 =
    All-append IsU8 (body crc16_ibm_sdlc cobs-laws sensor) (0 ∷ [])
      (nonzero-IsU8 (body crc16_ibm_sdlc cobs-laws sensor) (
        cobs-laws.encoded-IsNonzeroU8 (raw_bytes crc16_ibm_sdlc sensor)
          (raw_bytes-IsU8 crc16_ibm_sdlc cobs-laws sensor sensor-IsFrame)))
      (omega arith, tt)

late-IsFinite : IsFinite chunks 1 late.source
late-IsFinite =
    IsFinite.gives [] 7 (0 ∷ wire crc16_ibm_sdlc cobs-laws sensor) refl
      (omega arith, (omega arith, late-IsU8)) (IsFinite.ends [] refl)

read_segment-Accounts_example :
    (result : Result (Unit {0}) (HostError (Unit {0}) (Unit {0}))) × (h' : HostState
      (List (List ℕ))
      CapturingStorage)
    × (rs : List StoredRecord) × (run_loop crates chunks capturing ticks 10 never 2 late
        ≡ ret (result, h'))
    × (read_segment serialiser crc32_iso_hdlc cobs h'.storage.written ≡ ret (map (λ r. ok r) rs))
    × Accounts crates policy ticks 0 (given chunks late-IsFinite) rs h'.pipeline
    × (h'.pipeline.ringbuf.queue ≡ [])
read_segment-Accounts_example =
    read_segment-Accounts crates cobs-laws serialiser-laws (deque-laws StoredRecord) chunks ticks 10
      crc32_iso_hdlc-laws byte_vec-laws never policy 1 2 late ticks-IsU64 late-IsFinite
      (omega arith) refl refl
