-- ===== src/Examples/Stuffing.antt =====
-- Consistent-overhead byte stuffing with blocks of at most 254 bytes.
pub mod Laws
use rust_telemetry_logger.Prelude.{
  ℕ, zero, suc, ◌+◌, ◌-◌, ◌/◌, ◌≤◌, ◌<◌, ◌≡◌, ◌∙◌, refl, ap, sym, arith, List, [], ◌∷◌, ◌++◌, ◌==◌,
  if◌then◌else◌, Bool, true, false, not, Option, some, none, length, drop, Bool-cases, inl, inr,
  length-append, length-drop, subst, append_assoc, All, All-append, IsU8,
}
use rust_telemetry_logger.External.Cobs.{Cobs, CobsLaws, IsNonzeroU8}

-- A block behind its code, and what follows.
abbrev pub block : List ℕ → List ℕ → List ℕ
block b rest = (length b + 1) ∷ (b ++ rest)

-- `b` is what the current block has so far.
unfoldable pub stuff : List ℕ → List ℕ → List ℕ
stuff b [] = block b []
stuff b (x ∷ xs) = elim (x == 0) [
  | true ↦ block b (stuff [] xs)
  | false ↦ elim (length b == 253) [
    | true ↦ block (b ++ (x ∷ [])) (stuff [] xs)
    | false ↦ stuff (b ++ (x ∷ [])) xs
  ]
]

abbrev pub prepend : List ℕ → Option (List ℕ) → Option (List ℕ)
prepend b none = none
prepend b (some out) = some (b ++ out)

-- `k` bytes of the current block are left; `z` says that a zero stands before the next block.
unfoldable pub unstuff : ℕ → Bool → List ℕ → Option (List ℕ)
unstuff zero z [] = some []
unstuff (suc k) z [] = none
unstuff (suc k) z (x ∷ xs) = prepend (x ∷ []) (unstuff k z xs)
unstuff zero z (c ∷ xs) =
    let rest = unstuff (c - 1) (not (c == 255)) xs in
    if c == 0 then none else if z then prepend (0 ∷ []) rest else rest

-- The buffer with what was decoded at its front.
abbrev pub decoded : List ℕ → Option (List ℕ) → Option ℕ × List ℕ
decoded buf none = (none, buf)
decoded buf (some out) = (some (length out), out ++ drop (length out) buf)

abbrev pub cobs : Cobs
cobs = record {
  encode = λ src dest. (length (stuff [] src), stuff [] src ++ drop (length (stuff [] src)) dest);
  decode_in_place = λ buf. decoded buf (unstuff 0 false buf);
  max_encoding_length = λ n. n + n / 254 + 1;
}

pub stuff_zero :
    (b : List ℕ) (x : ℕ) (xs : List ℕ) → (x == 0) ≡ true → stuff b (x ∷ xs) ≡ block b (stuff [] xs)
unfolding stuff
stuff_zero b x xs h = rw (h, stuff)

pub stuff_full :
    (b : List ℕ) (x : ℕ) (xs : List ℕ)
    → (x == 0) ≡ false
    → (length b == 253) ≡ true
    → stuff b (x ∷ xs) ≡ block (b ++ (x ∷ [])) (stuff [] xs)
unfolding stuff
stuff_full b x xs h e = rw (h, stuff) (rw e)

pub stuff_more :
    (b : List ℕ) (x : ℕ) (xs : List ℕ)
    → (x == 0) ≡ false
    → (length b == 253) ≡ false
    → stuff b (x ∷ xs) ≡ stuff (b ++ (x ∷ [])) xs
unfolding stuff
stuff_more b x xs h e = rw (h, stuff) (rw e)

pub All-drop : (n : ℕ) (xs : List ℕ) → All IsU8 xs → All IsU8 (drop n xs)
All-drop zero xs h = h
All-drop (suc n) [] h = tt
All-drop (suc n) (x ∷ xs) h = All-drop n xs h.1

pub stuff_pos : (b xs : List ℕ) → 0 < length (stuff b xs)
stuff_pos b [] = unfold stuff in omega arith
stuff_pos b (x ∷ xs) = elim (Bool-cases (x == 0)) [
  | inl zero_byte ↦ rw (stuff_zero b x xs zero_byte) (omega arith)
  | inr other ↦ elim (Bool-cases (length b == 253)) [
    | inl full ↦ rw (stuff_full b x xs other full) (omega arith)
    | inr room ↦ rw (stuff_more b x xs other room) (stuff_pos (b ++ (x ∷ [])) xs)
  ]
]

pub length-stuff :
    (b xs : List ℕ)
    → length b < 254
    → length (stuff b xs) ≤ (length b + length xs) + (length b + length xs) / 254 + 1
unfolding stuff
length-stuff b [] h = omega (arith, length-append b [])
length-stuff b (x ∷ xs) h = elim (Bool-cases (x == 0)) [
  | inl zero_byte ↦
      rw (stuff_zero b x xs zero_byte)
        (omega (arith, length-append b (stuff [] xs), length-stuff [] xs (omega arith)))
  | inr other ↦ elim (Bool-cases (length b == 253)) [
    | inl full ↦
        let e : length b ≡ 253 = ground arith in
        rw (stuff_full b x xs other full) (
          omega (
            arith,
            e,
            length-append (b ++ (x ∷ [])) (stuff [] xs),
            length-append b (x ∷ []),
            length-stuff [] xs (omega arith),
          ))
    | inr room ↦
        let ne : length b < 253 = ground arith in
        rw (stuff_more b x xs other room) (
          omega (
            arith,
            length-append b (x ∷ []),
            length-stuff (b ++ (x ∷ [])) xs (omega (arith, ne, length-append b (x ∷ []))),
          ))
  ]
]

pub stuff-IsNonzeroU8 :
    (b xs : List ℕ)
    → length b < 254
    → All IsNonzeroU8 b
    → All IsU8 xs
    → All IsNonzeroU8 (stuff b xs)
unfolding stuff
stuff-IsNonzeroU8 b [] h p q = ((omega arith, omega arith), All-append IsNonzeroU8 b [] p tt)
stuff-IsNonzeroU8 b (x ∷ xs) h p (q, qs) =
    let one : length (b ++ (x ∷ [])) ≡ length b + 1 = length-append b (x ∷ []) in
    elim (Bool-cases (x == 0)) [
      | inl zero_byte ↦ rw (stuff_zero b x xs zero_byte) (
        (omega arith, omega arith),
        All-append IsNonzeroU8 b (stuff [] xs) p (stuff-IsNonzeroU8 [] xs (omega arith) tt qs),
      )
      | inr other ↦
          let pos : 0 < x = ground arith in
          let grown = All-append IsNonzeroU8 b (x ∷ []) p ((q, pos), tt) in
          elim (Bool-cases (length b == 253)) [
            | inl full ↦ rw (stuff_full b x xs other full) (
              (omega (arith, one), omega arith),
              All-append IsNonzeroU8 (b ++ (x ∷ [])) (stuff [] xs) grown
                  (stuff-IsNonzeroU8 [] xs (omega arith) tt qs),
            )
            | inr room ↦
                let ne : length b < 253 = ground arith in
                rw (stuff_more b x xs other room)
                  (stuff-IsNonzeroU8 (b ++ (x ∷ [])) xs (omega (arith, one, ne)) grown qs)
          ]
    ]
