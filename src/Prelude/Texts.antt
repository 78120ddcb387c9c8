-- ===== src/Prelude/Texts.antt =====
-- Texts as lists of code points, and the formats of Rust's `write!` that the tools use.
use Prim.Native.Char.{code}
use Prim.Native.Nat.{ℕ, zero, suc, ◌+◌, ◌-◌, ◌*◌, ◌/◌, ◌%◌, ◌^◌, ◌<◌}
use Prim.Native.String.{String}
use mathlib.Core.Path.{◌≡◌, refl, ap, ◌∙◌}
use mathlib.Core.Bool.{Bool, true, false, ◌&&◌}
use mathlib.Core.Option.{Option, none, some}
use mathlib.Core.List.{List, [], ◌∷◌, ◌++◌, append_assoc}
use mathlib.Core.Logic.{◌⊎◌, ◌↔◌, inl, inr}
use native.Mathlib.Omega.{arith}
use rust_telemetry_logger.Prelude.Tests.{
  ltb, leb, ltb→lt, ltb→ge, le→leb, Bool-cases, ◌==◌, ==_iff, if◌then◌else◌,
}
use rust_telemetry_logger.Prelude.Lists.{length, replicate, All}
use rust_telemetry_logger.Prelude.Words.{IsU8}

-- The code points of a literal. `String` has its own `[]` and `∷`.
abbrev pub codes : String → List ℕ
codes String.[] = []
codes (String.◌∷◌ c s) = code c ∷ codes s

-- `==` on texts.
abbrev pub same_text : List ℕ → List ℕ → Bool
same_text [] [] = true
same_text [] (y ∷ ys) = false
same_text (x ∷ xs) [] = false
same_text (x ∷ xs) (y ∷ ys) = (x == y) && same_text xs ys

-- `str::strip_prefix`
abbrev pub strip_prefix : List ℕ → List ℕ → Option (List ℕ)
strip_prefix [] text = some text
strip_prefix (p ∷ ps) [] = none
strip_prefix (p ∷ ps) (x ∷ xs) = if p == x then strip_prefix ps xs else none

-- `{}` of an unsigned integer, on fuel that exceeds it.
unfoldable pub decimal_from : ℕ → ℕ → List ℕ
decimal_from zero n = []
decimal_from (suc fuel) n = elim (ltb n 10) [
  | true ↦ (48 + n) ∷ []
  | false ↦ decimal_from fuel (n / 10) ++ ((48 + n % 10) ∷ [])
]

abbrev pub decimal : ℕ → List ℕ
decimal n = decimal_from (suc n) n

-- `{:05}`, and every other width.
abbrev pub zero_padded : ℕ → List ℕ → List ℕ
zero_padded width text = replicate (width - length text) 48 ++ text

-- `{:<12}`, and every other width.
abbrev pub left_aligned : ℕ → List ℕ → List ℕ
left_aligned width text = text ++ replicate (width - length text) 32

abbrev pub hex_digit : ℕ → ℕ
hex_digit d = if ltb d 10 then 48 + d else 87 + d

-- `{:02x}` of a byte.
abbrev pub hex_byte : ℕ → List ℕ
hex_byte b = hex_digit (b / 16) ∷ hex_digit (b % 16) ∷ []

-- The number that a text begins with, and what is behind its digits.
unfoldable pub read_decimal : ℕ → List ℕ → ℕ × List ℕ
read_decimal n [] = (n, [])
read_decimal n (c ∷ cs) =
    let rest = read_decimal (n * 10 + (c - 48)) cs in
    if leb 48 c && leb c 57 then rest else (n, c ∷ cs)

-- The text begins with no digit.
abbrev pub IsBreak : List ℕ → Type 0
IsBreak [] = Unit
IsBreak (c ∷ cs) = (c < 48) ⊎ (57 < c)

read_decimal-break : (n : ℕ) (rest : List ℕ) → IsBreak rest → read_decimal n rest ≡ (n, rest)
unfolding read_decimal
read_decimal-break n [] h = refl
read_decimal-break n (c ∷ cs) h = ground arith

read_digit :
    (m d : ℕ) (rest : List ℕ)
    → d < 10
    → read_decimal m ((48 + d) ∷ rest) ≡ read_decimal (m * 10 + d) rest
unfolding read_decimal
read_digit m d rest h =
    rw (le→leb 48 (48 + d) (omega arith), le→leb (48 + d) 57 (omega arith))
      (ap (λ n. read_decimal n rest) {x = m * 10 + (48 + d - 48)} {y = m * 10 + d} (omega arith))

read_decimal-decimal_from :
    (fuel n : ℕ) (rest : List ℕ)
    → n < fuel
    → read_decimal 0 (decimal_from fuel n ++ rest) ≡ read_decimal n rest
unfolding decimal_from
read_decimal-decimal_from zero n rest h = absurd (omega arith)
read_decimal-decimal_from (suc fuel) n rest h = elim (Bool-cases (ltb n 10)) [
  | inl single ↦
      rw (single, decimal_from)
        (read_digit 0 n rest (ltb→lt _ _ single)
          ∙ ap (λ m. read_decimal m rest) {x = 0 * 10 + n} {y = n} (omega arith))
  | inr more ↦
      rw (more, decimal_from)
        (ap (read_decimal 0) (append_assoc (decimal_from fuel (n / 10)) ((48 + n % 10) ∷ []) rest)
          ∙ read_decimal-decimal_from fuel (n / 10) ((48 + n % 10) ∷ rest)
              (omega (arith, ltb→ge _ _ more))
          ∙ read_digit (n / 10) (n % 10) rest (omega arith)
          ∙ ap (λ m. read_decimal m rest) {x = n / 10 * 10 + n % 10} {y = n} (omega arith))
]

-- A printed number in front of a text that begins with no digit is read back.
pub read_decimal-decimal :
    (n : ℕ) (rest : List ℕ) → IsBreak rest → read_decimal 0 (decimal n ++ rest) ≡ (n, rest)
read_decimal-decimal n rest h =
    read_decimal-decimal_from (suc n) n rest (omega arith) ∙ read_decimal-break n rest h

decimal_max : decimal (2 ^ 64 - 1) ≡ codes "18446744073709551615"
unfolding decimal_from
decimal_max = refl

-- The value of a digit of `{:02x}`, and of pairs of them up to a quote.
abbrev pub unhex_digit : ℕ → ℕ
unhex_digit c = if ltb c 58 then c - 48 else c - 87

unfoldable pub read_hex : List ℕ → List ℕ × List ℕ
read_hex [] = ([], [])
read_hex (c ∷ []) = ([], c ∷ [])
read_hex (a ∷ (b ∷ cs)) =
    let (bytes, rest) = read_hex cs in
    if a == 34 then ([], a ∷ b ∷ cs) else ((unhex_digit a * 16 + unhex_digit b) ∷ bytes, rest)

unfoldable pub hex_bytes : List ℕ → List ℕ
hex_bytes [] = []
hex_bytes (b ∷ bs) = hex_byte b ++ hex_bytes bs

unhex-hex :
    (b : ℕ) → b < 256 → unhex_digit (hex_digit (b / 16)) * 16 + unhex_digit (hex_digit (b % 16)) ≡ b
unhex-hex b h = ground arith

hex_digit-unquoted : (b : ℕ) → (hex_digit (b / 16) == 34) ≡ false
hex_digit-unquoted b = ground arith

-- Bytes in hex, up to a quote, are read back.
pub read_hex-hex_bytes :
    (bs rest : List ℕ) → All IsU8 bs → read_hex (hex_bytes bs ++ (34 ∷ rest)) ≡ (bs, 34 ∷ rest)
unfolding read_hex hex_bytes
read_hex-hex_bytes [] [] h = refl
read_hex-hex_bytes [] (r ∷ rest) h = refl
read_hex-hex_bytes (b ∷ bs) rest (h, hs) =
    rw (hex_digit-unquoted b, unhex-hex b h)
      (ap {A = List ℕ × List ℕ} (λ r. (b ∷ r.0, r.1)) (read_hex-hex_bytes bs rest hs))

pub same_text_iff : (xs ys : List ℕ) → (same_text xs ys ≡ true) ↔ (xs ≡ ys)
same_text_iff [] [] = (λ e. refl, λ e. refl)
same_text_iff [] (y ∷ ys) = (λ e. cc, λ e. cc)
same_text_iff (x ∷ xs) [] = (λ e. cc, λ e. cc)
same_text_iff (x ∷ xs) (y ∷ ys) = elim (Bool-cases (x == y)) [
  | inl same ↦ (
    λ e. cc ((==_iff x y).0 same, (same_text_iff xs ys).0 (rw same at e)),
    λ e. rw same ((same_text_iff xs ys).1 cc),
  )
  | inr other ↦ (λ e. cc (rw other at e), λ e. cc (other, (==_iff x y).1 cc))
]
