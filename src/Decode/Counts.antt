-- ===== src/Decode/Counts.antt =====
-- What the decoder shows and counts.
use rust_telemetry_logger.Prelude.{
  ℕ, ◌+◌, ◌≤◌, ◌<◌, ◌^◌, ◌≡◌, ◌∙◌, ap, sym, arith, true, false, List, [], ◌∷◌, ◌++◌, length,
  append_assoc, append-nil, if◌then◌else◌, Result, ok, err, Bool-cases, inl, inr,
}
use rust_telemetry_logger.Error.{Error}
use rust_telemetry_logger.Decode.{
  record_seen, record_passed, Selection, passes_filter, Decoding, show, decode_results,
}
use rust_telemetry_logger.Record.{StoredRecord, RecordV1, v1}

-- The records among the results that pass the filter, in order.
unfoldable pub selected : Selection → List (Result StoredRecord Error) → List StoredRecord
selected sel [] = []
selected sel (err e ∷ results) = selected sel results
selected sel (ok r ∷ results) =
    let rest = selected sel results in if passes_filter r sel then r ∷ rest else rest

-- The results that are errors.
unfoldable pub errors : List (Result StoredRecord Error) → ℕ
errors [] = 0
errors (err e ∷ results) = errors results + 1
errors (ok r ∷ results) = errors results

-- The same three numbers and the shown records, from the results at once.
pub record IsTally (sel : Selection) (d : Decoding) (results : List (Result StoredRecord Error))
    (d' : Decoding) : Type 0 where
  pub shown : d'.shown ≡ d.shown ++ selected sel results
  pub total_seen : d'.stats.total_seen ≡ d.stats.total_seen + length results
  pub decode_errors : d'.stats.decode_errors ≡ d.stats.decode_errors + errors results
  pub passed_filter : d'.stats.passed_filter ≡ d.stats.passed_filter + length (selected sel results)

show_passes :
    (sel : Selection) (d : Decoding) (v : RecordV1)
    → passes_filter (v1 v) sel ≡ true
    → show sel d (v1 v) ≡ record {
      stats = record_passed d.stats v.packet_type v.severity;
      shown = d.shown ++ (v1 v ∷ []);
    }
unfolding show
show_passes sel d v h = rw h

show_stops :
    (sel : Selection) (d : Decoding) (r : StoredRecord)
    → passes_filter r sel ≡ false
    → show sel d r ≡ d
unfolding show
show_stops sel d (v1 v) h = rw h

selected_passes :
    (sel : Selection) (results : List (Result StoredRecord Error)) (v : RecordV1)
    → passes_filter (v1 v) sel ≡ true
    → selected sel (ok (v1 v) ∷ results) ≡ v1 v ∷ selected sel results
unfolding selected
selected_passes sel results v h = rw h

selected_stops :
    (sel : Selection) (results : List (Result StoredRecord Error)) (r : StoredRecord)
    → passes_filter r sel ≡ false
    → selected sel (ok r ∷ results) ≡ selected sel results
unfolding selected
selected_stops sel results r h = rw h

-- The decoder shows exactly the decoded records that pass the filter, in order, and counts every
-- result, every error and every shown record, as long as the counters have room.
pub decode_results-IsTally :
    (results : List (Result StoredRecord Error)) (sel : Selection) (d : Decoding)
    → d.stats.total_seen + length results < 2 ^ 64
    → d.stats.decode_errors ≤ d.stats.total_seen
    → d.stats.passed_filter ≤ d.stats.total_seen
    → IsTally sel d results (decode_results sel d results)
unfolding decode_results selected errors record_seen record_passed
decode_results-IsTally [] sel d room e p = record {
  shown = sym (append-nil d.shown);
  total_seen = omega arith;
  decode_errors = omega arith;
  passed_filter = omega arith;
}
decode_results-IsTally (err x ∷ results) sel d room e p =
    let h =
      decode_results-IsTally results sel (record d { stats = record_seen d.stats false })
        (omega arith) (omega arith) (omega arith) in
    record {
      shown = h.shown;
      total_seen = omega (arith, h.total_seen);
      decode_errors = omega (arith, h.decode_errors);
      passed_filter = omega (arith, h.passed_filter);
    }
decode_results-IsTally (ok (v1 v) ∷ results) sel d room e p =
    elim (Bool-cases (passes_filter (v1 v) sel)) [
      | inl passes ↦
          let d₁ : Decoding = record d { stats = record_seen d.stats true } in
          let d₂ : Decoding = record {
            stats = record_passed d₁.stats v.packet_type v.severity;
            shown = d.shown ++ (v1 v ∷ []);
          } in
          let h = decode_results-IsTally results sel d₂ (omega arith) (omega arith) (omega arith) in
          let chosen = selected_passes sel results v passes in
          rw (show_passes sel d₁ v passes) (record {
            shown =
                h.shown
                ∙ append_assoc d.shown (v1 v ∷ []) (selected sel results)
                ∙ ap (λ l. d.shown ++ l) (sym chosen);
            total_seen = omega (arith, h.total_seen);
            decode_errors = omega (arith, h.decode_errors);
            passed_filter = omega (arith, h.passed_filter, ap length chosen);
          })
      | inr stops ↦
          let d₁ : Decoding = record d { stats = record_seen d.stats true } in
          let h = decode_results-IsTally results sel d₁ (omega arith) (omega arith) (omega arith) in
          let chosen = selected_stops sel results (v1 v) stops in
          rw (show_stops sel d₁ (v1 v) stops) (record {
            shown = h.shown ∙ ap (λ l. d.shown ++ l) (sym chosen);
            total_seen = omega (arith, h.total_seen);
            decode_errors = omega (arith, h.decode_errors);
            passed_filter = omega (arith, h.passed_filter, ap length chosen);
          })
    ]
