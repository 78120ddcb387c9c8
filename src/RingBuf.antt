-- ===== src/RingBuf.antt =====
-- crates/telemetry-core/src/ringbuf.rs: the queue between `ingest` and `drain`.
pub mod Queue
use rust_telemetry_logger.Prelude.{
  ℕ, ◌%◌, ◌^◌, Bool, List, [], Option, none, some, ltb, length, is_empty as list_is_empty,
  if◌then◌else◌, add_u64, Result, ok, err,
}
use rust_telemetry_logger.External.Heapless.{Deque}
use rust_telemetry_logger.Record.{StoredRecord}

pub record RingBuf : Type 0 where
  pub queue : List StoredRecord
  pub overflow_count : ℕ
  pub high_water : ℕ

-- `new`, and `Default`.
abbrev pub new : RingBuf
new = record { queue = []; overflow_count = 0; high_water = 0 }

unfoldable pub len : RingBuf → ℕ
len rb = length rb.queue

unfoldable pub is_empty : RingBuf → Bool
is_empty rb = list_is_empty rb.queue

module _ (deque : Deque StoredRecord) where
  -- `N` is the capacity of the queue.
  unfoldable pub push : ℕ → RingBuf → StoredRecord → Result (Unit {0}) (Unit {0}) × RingBuf
  push N rb r =
      if deque.is_full N rb.queue
      then (err tt, record rb { overflow_count = add_u64 rb.overflow_count 1 })
      else elim (deque.push_back N rb.queue r) [
        | none ↦ (err tt, rb)
        | some queue ↦
            let n = length queue % 2 ^ 32 in
            (
              ok tt,
              record rb {
                queue = queue;
                high_water = if ltb rb.high_water n then n else rb.high_water;
              },
            )
      ]

  unfoldable pub pop : RingBuf → Option StoredRecord × RingBuf
  pop rb = let (r, queue) = deque.pop_front rb.queue in (r, record rb { queue = queue })
