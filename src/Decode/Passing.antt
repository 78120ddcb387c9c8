-- ===== src/Decode/Passing.antt =====
-- Which records the decoder shows.
use rust_telemetry_logger.Prelude.{
  ℕ, ◌≤◌, ◌≡◌, ◌↔◌, inl, inr, refl, arith, not, ◌&&◌, true, false, List, [], ◌∷◌, Option, none,
  some, ltb, ltb→ge, ge→ltb, ltb→lt, Bool-cases, is_empty,
}
use rust_telemetry_logger.Decode.{Selection, is_before, passes_filter}
use rust_telemetry_logger.Filter.{contains}
use rust_telemetry_logger.Filter.Allow.{IsIn, contains_iff}
use rust_telemetry_logger.Record.{RecordV1, v1}

-- The sequence number is at least `--since`, if it is given.
abbrev pub IsSince : Option ℕ → ℕ → Type 0
IsSince none sequence = Unit
IsSince (some since) sequence = since ≤ sequence

-- The type is one of those of `--type`, if any is given.
abbrev pub IsWanted : List ℕ → ℕ → Type 0
IsWanted [] packet_type = Unit
IsWanted (t ∷ ts) packet_type = IsIn (t ∷ ts) packet_type

is_before_iff :
    (since : Option ℕ) (sequence : ℕ) → (is_before since sequence ≡ false) ↔ IsSince since sequence
unfolding is_before
is_before_iff none sequence = (λ e. tt, λ h. refl)
is_before_iff (some since) sequence = (λ e. ltb→ge sequence since e, λ h. ge→ltb sequence since h)

is_shown_type_iff :
    (types : List ℕ) (t : ℕ)
    → ((not (is_empty types) && not (contains types t)) ≡ false) ↔ IsWanted types t
is_shown_type_iff [] t = (λ e. tt, λ h. refl)
is_shown_type_iff (u ∷ types) t = elim (Bool-cases (contains (u ∷ types) t)) [
  | inl holds ↦ (λ e. (contains_iff (u ∷ types) t).0 holds, λ h. rw holds refl)
  | inr fails ↦ (λ e. cc (rw fails at e), λ h. cc (fails, (contains_iff (u ∷ types) t).1 h))
]

-- A record is shown exactly when its sequence number is at least `--since`, its severity at least
-- `--min-severity` and its type one of `--type`, each as far as it is given.
pub passes_filter_iff :
    (v : RecordV1) (sel : Selection)
    → (passes_filter (v1 v) sel ≡ true) ↔ (
        IsSince sel.since v.sequence
        × (sel.min_severity ≤ v.severity)
        × IsWanted sel.packet_types v.packet_type)
unfolding passes_filter
passes_filter_iff v sel = elim (Bool-cases (is_before sel.since v.sequence)) [
  | inl early ↦ rw early (λ e. cc, λ h. cc (early, (is_before_iff sel.since v.sequence).1 h.0))
  | inr late ↦ elim (Bool-cases (ltb v.severity sel.min_severity)) [
    | inl low ↦ rw (late, low) (λ e. cc, λ h. absurd (omega (arith, ltb→lt _ _ low, h.1)))
    | inr high ↦
        elim (Bool-cases
          (not (is_empty sel.packet_types) && not (contains sel.packet_types v.packet_type))) [
            | inl unwanted ↦
                rw (late, high, unwanted)
                  (
                    λ e. cc,
                    λ h. cc (unwanted, (is_shown_type_iff sel.packet_types v.packet_type).1 h.2),
                  )
            | inr wanted ↦
                rw (late, high, wanted)
                  (
                    λ e. (
                      (is_before_iff sel.since v.sequence).0 late,
                      ltb→ge _ _ high,
                      (is_shown_type_iff sel.packet_types v.packet_type).0 wanted,
                    ),
                    λ h. refl,
                  )
          ]
  ]
]
