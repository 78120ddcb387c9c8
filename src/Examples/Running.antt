-- ===== src/Examples/Running.antt =====
-- The theorem on the host program, at inputs that give one byte or nothing.
use rust_telemetry_logger.Prelude.{
  ℕ, ◌≤◌, ◌<◌, ◌≡◌, refl, arith, Bool, true, false, List, [], ◌∷◌, Result, ok, err, ret, codes,
}
use rust_telemetry_logger.Examples.Containers.{deque-laws, byte_vec-laws}
use rust_telemetry_logger.Examples.Disk.{disk}
use rust_telemetry_logger.Examples.Hosting.{never}
use rust_telemetry_logger.Examples.Serialiser.{serialiser-laws}
use rust_telemetry_logger.Examples.Stuffing.Laws.{cobs-laws}
use rust_telemetry_logger.Examples.Values.{crates, ticks, ticks-IsU64}
use rust_telemetry_logger.External.Inputs.{Inputs}
use rust_telemetry_logger.Host.{read_source, udp_source}
use rust_telemetry_logger.Host.Loop.{IsFinite}
use rust_telemetry_logger.Host.Main.{Args, main}
use rust_telemetry_logger.Host.Total.{AllEnd, main_total}
use rust_telemetry_logger.Record.{StoredRecord}

-- An input is whether it has its byte yet.
abbrev read_byte : Bool → ℕ → Result (List ℕ) (Unit {0}) × Bool
read_byte true size = (ok (0 ∷ []), false)
read_byte false size = (ok [], false)

abbrev receive_byte : Bool → ℕ → Result (List ℕ × ℕ) (Unit {0}) × Bool
receive_byte true size = (ok (0 ∷ [], 7), false)
receive_byte false size = (ok ([], 7), false)

abbrev inputs : Inputs Bool (Unit {0}) ℕ
inputs = record {
  stdin = true;
  open_file = λ path. ok true;
  listen = λ addr. ok true;
  accept = λ listener. err tt;
  bind = λ addr. ok true;
  read = read_byte;
  recv_from = receive_byte;
}

reads_end : (s : Bool) → (n : ℕ) × (n < 2) × IsFinite (read_source read_byte) n s
unfolding read_source
reads_end true =
    (1, omega arith, IsFinite.gives false 0 [] refl (omega arith, tt) (IsFinite.ends false refl))
reads_end false = (0, omega arith, IsFinite.ends false refl)

receives_end : (s : Bool) → (n : ℕ) × (n < 2) × IsFinite (udp_source receive_byte) n s
unfolding udp_source
receives_end true =
    (1, omega arith, IsFinite.gives false 0 [] refl (omega arith, tt) (IsFinite.ends false refl))
receives_end false = (0, omega arith, IsFinite.ends false refl)

inputs_end :
    AllEnd crates cobs-laws serialiser-laws
      (deque-laws StoredRecord)
      byte_vec-laws
      inputs
      disk
      ticks
      never
      2
      ticks-IsU64
inputs_end = record { reads = reads_end; receives = receives_end }

abbrev args : Args
args = record {
  input = codes "udp:0";
  min_severity = 0;
  allow_types = 1 ∷ [];
  segment_size = 64;
  stats_interval = 1;
}

main_total_example :
    (status : ℕ) × (lines : List (List ℕ)) × (disk' : _) × (main crates inputs disk ticks never 2
        args
        (ok tt)
        (λ j. [])
      ≡ ret (status, lines, disk'))
    × (status ≤ 1)
main_total_example =
    main_total crates cobs-laws serialiser-laws (deque-laws StoredRecord) byte_vec-laws inputs disk
      ticks never 2 ticks-IsU64 inputs_end args (ok tt) (λ j. [])
