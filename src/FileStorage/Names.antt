-- ===== src/FileStorage/Names.antt =====
-- crates/telemetry-std/src/lib.rs: the names of the segment files, and the decoder that looks for
-- them.
use rust_telemetry_logger.Prelude.{
  ℕ, zero, suc, ◌+◌, ◌-◌, ◌*◌, ◌≡◌, ◌∙◌, ap, refl, sym, arith, List, [], ◌∷◌, ◌++◌, true, some, inl,
  length, replicate, drop, codes, decimal, zero_padded, read_decimal, read_decimal-decimal,
  append_assoc,
}
use rust_telemetry_logger.Decode.Directory.{
  after_last_dot, extension, same_ignoring_case, is_segment_name,
}

-- `format!("seg-{index:05}.bin")` of `segment_path`.
unfoldable pub segment_name : ℕ → List ℕ
segment_name index = codes "seg-" ++ (zero_padded 5 (decimal index) ++ codes ".bin")

after_last_dot-bin : (xs : List ℕ) → after_last_dot (xs ++ codes ".bin") ≡ some (codes "bin")
unfolding after_last_dot
after_last_dot-bin [] = refl
after_last_dot-bin (x ∷ xs) = rw (after_last_dot-bin xs) refl

read_decimal-zeros :
    (k : ℕ) (text : List ℕ) → read_decimal 0 (replicate k 48 ++ text) ≡ read_decimal 0 text
unfolding read_decimal
read_decimal-zeros zero text = refl
read_decimal-zeros (suc k) text =
    ap (λ n. read_decimal n (replicate k 48 ++ text)) {x = 0 * 10 + (48 - 48)} {y = 0} (omega arith)
    ∙ read_decimal-zeros k text

number_of_name : (i : ℕ) → (read_decimal 0 (drop 4 (segment_name i))).0 ≡ i
unfolding segment_name
number_of_name i =
    let d = decimal i in
    ap (λ t. (read_decimal 0 t).0) (append_assoc (replicate (5 - length d) 48) d (codes ".bin"))
    ∙ ap (λ r. r.0) (read_decimal-zeros (5 - length d) (d ++ codes ".bin"))
    ∙ ap (λ r. r.0) (read_decimal-decimal i (codes ".bin") (inl (omega arith)))

-- The decoder recognises the name of every segment, and different segments have different names.
pub segment_name-is_segment_name :
    (i : ℕ)
    → (is_segment_name (segment_name i) ≡ true)
      × ((j : ℕ) → segment_name i ≡ segment_name j → i ≡ j)
unfolding segment_name is_segment_name extension same_ignoring_case
segment_name-is_segment_name i = (
  rw (after_last_dot-bin (codes "eg-" ++ zero_padded 5 (decimal i))) refl,
  λ j e. sym (number_of_name i) ∙ ap (λ t. (read_decimal 0 (drop 4 t)).0) e ∙ number_of_name j,
)
