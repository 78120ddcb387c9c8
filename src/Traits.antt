-- ===== src/Traits.antt =====
-- crates/telemetry-core/src/traits.rs: the interfaces of the backends, and the test doubles.
use rust_telemetry_logger.Prelude.{ℕ, ◌+◌, List, [], ◌++◌, Result, ok, err}

-- `Storage`: the state `S` of the backend is threaded through.
pub record Storage (S E : Type 0) : Type 0 where
  pub write : S → List ℕ → Result (Unit {0}) E × S
  pub flush : S → Result (Unit {0}) E × S

-- `Clock`: the reading at each instant. `now` is called at an instant that the caller names.
pub record Clock : Type 0 where
  pub now : ℕ → ℕ

-- `PacketSource::read` into a buffer of the given size: the bytes read. That they are no more than
-- the buffer holds is the contract of `read`, by which the caller's slice of the buffer is in bounds.
pub record PacketSource (S E : Type 0) : Type 0 where
  pub read : S → ℕ → Result (List ℕ) E × S

-- `SimClock`
abbrev pub sim_clock : ℕ → Clock
sim_clock micros = record { now = λ _. micros }

-- `CapturingStorage`
pub record CapturingStorage : Type 0 where
  pub written : List ℕ
  pub flush_count : ℕ

abbrev pub capturing_new : CapturingStorage
capturing_new = record { written = []; flush_count = 0 }

abbrev pub capturing : Storage CapturingStorage (Unit {0})
capturing = record {
  write = λ s bytes. (ok tt, record s { written = s.written ++ bytes });
  flush = λ s. (ok tt, record s { flush_count = s.flush_count + 1 });
}

-- `FailStorage`
abbrev pub failing : Storage (Unit {0}) (Unit {0})
failing = record { write = λ s bytes. (err tt, s); flush = λ s. (err tt, s) }
