-- ===== src/Decode/Report.antt =====
-- tools/telemetry-decode/src/main.rs: the statistics summary.
use Prim.Native.String.{String}
use rust_telemetry_logger.Prelude.{
  ℕ, zero, suc, ◌+◌, List, [], ◌∷◌, ◌++◌, ltb, if◌then◌else◌, codes, decimal, hex_byte,
  left_aligned,
}
use rust_telemetry_logger.Decode.{DecodeStats}

abbrev pub type_names : List String
type_names = "?" ∷ "Heartbeat" ∷ "SensorData" ∷ "Event" ∷ "Diagnostic" ∷ "Control" ∷ []

abbrev pub sev_names : List String
sev_names = "Debug" ∷ "Info" ∷ "Warning" ∷ "Error" ∷ "Fatal" ∷ []

-- `names.get(i).copied().unwrap_or("?")`
unfoldable pub name_at : List String → ℕ → String
name_at [] i = "?"
name_at (name ∷ names) zero = name
name_at (name ∷ names) (suc i) = name_at names i

unfoldable pub type_line : ℕ → ℕ → List ℕ
type_line i count =
    codes "  type "
    ++ (hex_byte i
        ++ (codes " ("
            ++ (left_aligned 12 (codes (name_at type_names i)) ++ (codes "): " ++ decimal count))))

unfoldable pub severity_line : ℕ → ℕ → List ℕ
severity_line i count =
    codes "  severity "
    ++ (decimal i
        ++ (codes " ("
            ++ (left_aligned 9 (codes (name_at sev_names i)) ++ (codes "): " ++ decimal count))))

-- The lines of the counts from the index `i` on that are not zero.
unfoldable pub count_lines : (ℕ → ℕ → List ℕ) → ℕ → List ℕ → List (List ℕ)
count_lines line i [] = []
count_lines line i (count ∷ counts) =
    let rest = count_lines line (i + 1) counts in if ltb 0 count then line i count ∷ rest else rest

-- `DecodeStats::print`, line by line.
unfoldable pub stats_lines : DecodeStats → List (List ℕ)
stats_lines s =
    codes "─── decode statistics ────────────────────────────────"
    ∷ (codes "  total records seen   : " ++ decimal s.total_seen)
    ∷ (codes "  decode errors        : " ++ decimal s.decode_errors)
    ∷ (codes "  passed filter        : " ++ decimal s.passed_filter)
    ∷ (count_lines type_line 0 s.by_type
        ++ (count_lines severity_line 0 s.by_severity
            ++ (codes "─────────────────────────────────────────────────────" ∷ [])))
