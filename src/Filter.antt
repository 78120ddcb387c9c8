-- ===== src/Filter.antt =====
-- crates/telemetry-core/src/filter.rs: the type and severity policy.
pub mod Allow
use rust_telemetry_logger.Prelude.{
  ℕ, Bool, true, false, not, ◌||◌, List, [], ◌∷◌, Option, none, some, ltb, ◌==◌, if◌then◌else◌,
}
use rust_telemetry_logger.Frame.{Frame}

abbrev pub max_filter_types : ℕ
max_filter_types = 8

pub record FilterConfig : Type 0 where
  pub min_severity : ℕ
  pub type_allowlist : Option (List ℕ)

-- `allow_all`, and `Default`.
abbrev pub allow_all : FilterConfig
allow_all = record { min_severity = 0x00; type_allowlist = none }

-- `slice::contains`
unfoldable pub contains : List ℕ → ℕ → Bool
contains [] x = false
contains (y ∷ ys) x = y == x || contains ys x

unfoldable pub allow : FilterConfig → Frame → Bool
allow cfg frame =
    if ltb frame.header.severity cfg.min_severity then false else elim cfg.type_allowlist [
      | none ↦ true
      | some list ↦ if not (contains list frame.header.packet_type) then false else true
    ]
