-- ===== src/Stats.antt =====
-- crates/telemetry-core/src/stats.rs: the pipeline's counters.
use rust_telemetry_logger.Prelude.{ℕ, saturating_add_u64}

pub record Stats : Type 0 where
  pub ok : ℕ
  pub dropped : ℕ
  pub crc_fail : ℕ
  pub seq_gap : ℕ
  pub filtered : ℕ
  pub write_fail : ℕ
  pub queue_high_water : ℕ

-- `Default`
abbrev pub zero_stats : Stats
zero_stats = record {
  ok = 0;
  dropped = 0;
  crc_fail = 0;
  seq_gap = 0;
  filtered = 0;
  write_fail = 0;
  queue_high_water = 0;
}

unfoldable pub total_frames_seen : Stats → ℕ
total_frames_seen s =
    saturating_add_u64
      (saturating_add_u64 (saturating_add_u64 (saturating_add_u64 s.ok s.dropped) s.crc_fail)
        s.seq_gap)
      s.filtered
