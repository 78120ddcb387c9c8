-- ===== src/External/Cobs/Delimiter.antt =====
-- An encoding behind which the caller writes the zero delimiter, as frame.rs and record.rs do.
use rust_telemetry_logger.Prelude.{
  ℕ, ◌+◌, ◌≤◌, ◌<◌, ◌≡◌, ◌∙◌, ap, refl, arith, List, ◌∷◌, ◌++◌, ret, length, drop, set_index,
  set_index-append, drop-drop, length-drop,
}
use rust_telemetry_logger.External.Cobs.{Cobs, CobsLaws}

module _ {cobs : Cobs} (k : CobsLaws cobs) where
  -- The length that `encode` reports.
  pub written-encode :
      (src buf : List ℕ)
      → cobs.max_encoding_length (length src) + 1 ≤ length buf
      → (cobs.encode src buf).0 ≡ length (k.encoded src)
  written-encode src buf fits = ap (λ r. r.0) (k.encode_lem src buf (omega arith))

  pub set_index-encode :
      (src buf : List ℕ)
      → 0 < length src
      → cobs.max_encoding_length (length src) + 1 ≤ length buf
      → set_index (cobs.encode src buf).1 (cobs.encode src buf).0 0
        ≡ ret (k.encoded src ++ (0 ∷ drop (length (k.encoded src) + 1) buf))
  set_index-encode src buf pos fits =
      let e = k.encoded src in
      rw (k.encode_lem src buf (omega arith)) (
        set_index-append e (drop (length e) buf) (length e) 0 refl
          (omega (arith, length-drop (length e) buf, k.length-encoded src pos))
        ∙ ap (λ l. ret (e ++ (0 ∷ l))) (drop-drop 1 (length e) buf))
