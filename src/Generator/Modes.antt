-- ===== src/Generator/Modes.antt =====
-- tools/packet-generator/src/main.rs: the names of the corruption modes.
use rust_telemetry_logger.Prelude.{
  ℕ, ◌≡◌, ◌↔◌, ◌∙◌, ap, refl, inl, inr, true, false, List, [], ◌∷◌, if◌then◌else◌, is_empty, Result,
  ok, err, codes, same_text, same_text_iff, Bool-cases,
}
use rust_telemetry_logger.Generator.{CorruptMode, bad_crc, truncate, seq_gap, burst}

-- `CorruptMode::from_str`; the error names the text that is no mode.
unfoldable pub from_str : List ℕ → Result CorruptMode (List ℕ)
from_str s =
    if same_text s (codes "bad-crc")
    then ok bad_crc
    else if same_text s (codes "truncate")
    then ok truncate
    else if same_text s (codes "seq-gap")
    then ok seq_gap
    else if same_text s (codes "burst")
    then ok burst
    else err s

-- The modes of `--corrupt`: empty texts are skipped, and the first that is no mode ends the program.
unfoldable pub parse_modes : List (List ℕ) → Result (List CorruptMode) (List ℕ)
parse_modes [] = ok []
parse_modes (s ∷ texts) =
    let rest = parse_modes texts in
    if is_empty s then rest else elim (from_str s) [
      | err text ↦ err text
      | ok m ↦ elim rest [ err text ↦ err text | ok modes ↦ ok (m ∷ modes) ]
    ]

-- The text of a mode on the command line.
abbrev pub mode_text : CorruptMode → List ℕ
mode_text bad_crc = codes "bad-crc"
mode_text truncate = codes "truncate"
mode_text seq_gap = codes "seq-gap"
mode_text burst = codes "burst"

from_str-mode_text : (m : CorruptMode) → from_str (mode_text m) ≡ ok m
unfolding from_str
from_str-mode_text bad_crc = refl
from_str-mode_text truncate = refl
from_str-mode_text seq_gap = refl
from_str-mode_text burst = refl

unknown :
    (s : List ℕ)
    → same_text s (codes "bad-crc") ≡ false
    → same_text s (codes "truncate") ≡ false
    → same_text s (codes "seq-gap") ≡ false
    → same_text s (codes "burst") ≡ false
    → from_str s ≡ err s
unfolding from_str
unknown s no₁ no₂ no₃ no₄ = rw (no₁, no₂, no₃, no₄) refl

text_found :
    (s : List ℕ) (m found : CorruptMode)
    → same_text s (mode_text found) ≡ true
    → from_str s ≡ ok m
    → s ≡ mode_text m
text_found s m found same h =
    let e = (same_text_iff s (mode_text found)).0 same in
    cc (e, ap from_str e, from_str-mode_text found, h)

-- A text is read as a mode exactly when it is the text of that mode.
pub from_str_iff : (s : List ℕ) (m : CorruptMode) → (from_str s ≡ ok m) ↔ (s ≡ mode_text m)
from_str_iff s m = (
  λ h. elim (Bool-cases (same_text s (codes "bad-crc"))) [
    | inl same ↦ text_found s m bad_crc same h
    | inr no₁ ↦ elim (Bool-cases (same_text s (codes "truncate"))) [
      | inl same ↦ text_found s m truncate same h
      | inr no₂ ↦ elim (Bool-cases (same_text s (codes "seq-gap"))) [
        | inl same ↦ text_found s m seq_gap same h
        | inr no₃ ↦ elim (Bool-cases (same_text s (codes "burst"))) [
          | inl same ↦ text_found s m burst same h
          | inr no₄ ↦ cc (h, unknown s no₁ no₂ no₃ no₄)
        ]
      ]
    ]
  ],
  λ e. ap from_str e ∙ from_str-mode_text m,
)
