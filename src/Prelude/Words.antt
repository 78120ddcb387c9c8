-- ===== src/Prelude/Words.antt =====
-- Bytes and little-endian words.
use Prim.Native.Nat.{ℕ, ◌+◌, ◌-◌, ◌*◌, ◌/◌, ◌%◌, ◌^◌, ◌<◌}
use mathlib.Core.Path.{◌≡◌}
use mathlib.Core.List.{List, [], ◌∷◌}
use native.Mathlib.Omega.{arith}
use Prim.Native.Nat.{min}

abbrev pub IsU8 : ℕ → Type 0
IsU8 b = b < 256

abbrev pub IsU16 : ℕ → Type 0
IsU16 n = n < 2 ^ 16

abbrev pub IsU32 : ℕ → Type 0
IsU32 n = n < 2 ^ 32

abbrev pub IsU64 : ℕ → Type 0
IsU64 n = n < 2 ^ 64

-- `u16::from_le_bytes` and `u32::from_le_bytes`.
abbrev pub u16_of : ℕ → ℕ → ℕ
u16_of a b = a + 256 * b

abbrev pub u32_of : ℕ → ℕ → ℕ → ℕ → ℕ
u32_of a b c d = a + 256 * b + 65536 * c + 16777216 * d

-- `to_le_bytes`.
abbrev pub le16 : ℕ → List ℕ
le16 n = n % 256 ∷ n / 256 % 256 ∷ []

abbrev pub le32 : ℕ → List ℕ
le32 n = n % 256 ∷ n / 256 % 256 ∷ n / 65536 % 256 ∷ n / 16777216 % 256 ∷ []

pub u16_of-le16 : (n : ℕ) → IsU16 n → u16_of (n % 256) (n / 256 % 256) ≡ n
u16_of-le16 n h = omega arith

pub u32_of-le32 :
    (n : ℕ) → IsU32 n → u32_of (n % 256) (n / 256 % 256) (n / 65536 % 256) (n / 16777216 % 256) ≡ n
u32_of-le32 n h = omega arith

-- `saturating_add` on u32 and u64.
abbrev pub saturating_add_u32 : ℕ → ℕ → ℕ
saturating_add_u32 a b = min (a + b) (2 ^ 32 - 1)

abbrev pub saturating_add_u64 : ℕ → ℕ → ℕ
saturating_add_u64 a b = min (a + b) (2 ^ 64 - 1)

-- `wrapping_add` on u32; `+=` on u64 in a build without overflow checks.
abbrev pub wrapping_add_u32 : ℕ → ℕ → ℕ
wrapping_add_u32 a b = (a + b) % 2 ^ 32

abbrev pub add_u64 : ℕ → ℕ → ℕ
add_u64 a b = (a + b) % 2 ^ 64

pub le16-u16_of : (a b : ℕ) → IsU8 a → IsU8 b → le16 (u16_of a b) ≡ a ∷ b ∷ []
le16-u16_of a b ha hb = ground arith

pub le32-u32_of :
    (a b c d : ℕ) → IsU8 a → IsU8 b → IsU8 c → IsU8 d → le32 (u32_of a b c d) ≡ a ∷ b ∷ c ∷ d ∷ []
le32-u32_of a b c d ha hb hc hd = ground arith
