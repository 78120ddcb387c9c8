-- ===== src/SystemClock.antt =====
-- crates/telemetry-std/src/lib.rs: the system clock.
use rust_telemetry_logger.Prelude.{ℕ, ◌-◌, ◌^◌, min}
use rust_telemetry_logger.Traits.{Clock}

-- `elapsed` is `base.elapsed().as_micros()` at each instant, a u128.
abbrev pub system_clock : (ℕ → ℕ) → Clock
system_clock elapsed = record { now = λ instant. min (elapsed instant) (2 ^ 64 - 1) }
