-- ===== src/Decode/Files.antt =====
-- What the decoder shows and counts over several files.
use rust_telemetry_logger.Prelude.{
  ◌+◌, ◌≤◌, ◌<◌, ◌^◌, ◌≡◌, ◌∙◌, ap, sym, refl, arith, List, [], ◌∷◌, ◌++◌, length, length-append,
  append_assoc, append-nil, Option, none, some, Result, ok, err, Bool-cases, inl, inr,
}
use rust_telemetry_logger.Error.{Error}
use rust_telemetry_logger.Decode.{Selection, passes_filter, Decoding, decode_results, decode_files}
use rust_telemetry_logger.Decode.Counts.{selected, errors, IsTally, decode_results-IsTally}
use rust_telemetry_logger.Record.{StoredRecord}

-- The results of the files that could be read.
unfoldable pub results_of :
    List (Option (List (Result StoredRecord Error))) → List (Result StoredRecord Error)
results_of [] = []
results_of (none ∷ files) = results_of files
results_of (some results ∷ files) = results ++ results_of files

module _ (sel : Selection) where
  selected-append :
      (xs ys : List (Result StoredRecord Error))
      → selected sel (xs ++ ys) ≡ selected sel xs ++ selected sel ys
  unfolding selected
  selected-append [] ys = refl
  selected-append (err e ∷ xs) ys = selected-append xs ys
  selected-append (ok r ∷ xs) ys = elim (Bool-cases (passes_filter r sel)) [
    | inl passes ↦ rw passes (ap (λ l. r ∷ l) (selected-append xs ys))
    | inr stops ↦ rw stops (selected-append xs ys)
  ]

  length-selected_le :
      (xs : List (Result StoredRecord Error)) → length (selected sel xs) ≤ length xs
  unfolding selected
  length-selected_le [] = omega arith
  length-selected_le (err e ∷ xs) = omega (arith, length-selected_le xs)
  length-selected_le (ok r ∷ xs) = elim (Bool-cases (passes_filter r sel)) [
    | inl passes ↦ rw passes (omega (arith, length-selected_le xs))
    | inr stops ↦ rw stops (omega (arith, length-selected_le xs))
  ]

errors-append :
    (xs ys : List (Result StoredRecord Error)) → errors (xs ++ ys) ≡ errors xs + errors ys
unfolding errors
errors-append [] ys = omega arith
errors-append (err e ∷ xs) ys = omega (arith, errors-append xs ys)
errors-append (ok r ∷ xs) ys = errors-append xs ys

errors_le : (xs : List (Result StoredRecord Error)) → errors xs ≤ length xs
unfolding errors
errors_le [] = omega arith
errors_le (err e ∷ xs) = omega (arith, errors_le xs)
errors_le (ok r ∷ xs) = omega (arith, errors_le xs)

module _ (sel : Selection) where
  IsTally-append :
      (d d₁ d₂ : Decoding) (xs ys : List (Result StoredRecord Error))
      → IsTally sel d xs d₁
      → IsTally sel d₁ ys d₂
      → IsTally sel d (xs ++ ys) d₂
  IsTally-append d d₁ d₂ xs ys h k =
      let chosen = selected-append sel xs ys in
      record {
        shown =
            k.shown
            ∙ ap (λ l. l ++ selected sel ys) h.shown
            ∙ append_assoc d.shown (selected sel xs) (selected sel ys)
            ∙ ap (λ l. d.shown ++ l) (sym chosen);
        total_seen = omega (arith, h.total_seen, k.total_seen, length-append xs ys);
        decode_errors = omega (arith, h.decode_errors, k.decode_errors, errors-append xs ys);
        passed_filter = omega (
          arith,
          h.passed_filter,
          k.passed_filter,
          ap length chosen,
          length-append (selected sel xs) (selected sel ys),
        );
      }

  -- Over all files that can be read the decoder shows exactly the decoded records that pass the
  -- filter, in order, and counts every result, every error and every shown record.
  pub decode_files-IsTally :
      (files : List (Option (List (Result StoredRecord Error)))) (d : Decoding)
      → d.stats.total_seen + length (results_of files) < 2 ^ 64
      → d.stats.decode_errors ≤ d.stats.total_seen
      → d.stats.passed_filter ≤ d.stats.total_seen
      → IsTally sel d (results_of files) (decode_files sel d files)
  unfolding results_of decode_files selected errors
  decode_files-IsTally [] d room e p = record {
    shown = sym (append-nil d.shown);
    total_seen = omega arith;
    decode_errors = omega arith;
    passed_filter = omega arith;
  }
  decode_files-IsTally (none ∷ files) d room e p = decode_files-IsTally files d room e p
  decode_files-IsTally (some results ∷ files) d room e p =
      let fits = length-append results (results_of files) in
      let h = decode_results-IsTally results sel d (omega (arith, fits)) e p in
      let d₁ = decode_results sel d results in
      IsTally-append d d₁ (decode_files sel d₁ files) results (results_of files) h (
        decode_files-IsTally files d₁ (omega (arith, fits, h.total_seen))
          (omega (arith, h.total_seen, h.decode_errors, errors_le results))
          (omega (arith, h.total_seen, h.passed_filter, length-selected_le sel results)))
