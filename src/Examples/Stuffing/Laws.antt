-- ===== src/Examples/Stuffing/Laws.antt =====
-- Decoding a stuffed list gives it back, and the laws of the crate `cobs` hold.
use rust_telemetry_logger.Prelude.{
  ℕ, zero, suc, ◌+◌, ◌-◌, ◌≤◌, ◌<◌, ◌≡◌, ◌∙◌, refl, ap, sym, arith, List, [], ◌∷◌, ◌++◌, ◌==◌,
  if◌then◌else◌, Bool, true, false, not, Option, some, none, length, drop, Bool-cases, inl, inr,
  length-append, length-drop, subst, append_assoc, All, All-append, IsU8,
}
use rust_telemetry_logger.External.Cobs.{CobsLaws}
use rust_telemetry_logger.Examples.Stuffing.{
  block, stuff, prepend, unstuff, decoded, cobs, stuff_zero, stuff_full, stuff_more, All-drop,
  stuff_pos, length-stuff, stuff-IsNonzeroU8,
}

-- The zero that stands before a block.
abbrev before : Bool → List ℕ → List ℕ
before true out = 0 ∷ out
before false out = out

prepend-nil : (o : Option (List ℕ)) → prepend [] o ≡ o
prepend-nil none = refl
prepend-nil (some out) = refl

prepend-prepend :
    (x : ℕ) (b : List ℕ) (o : Option (List ℕ)) → prepend (x ∷ []) (prepend b o) ≡ prepend (x ∷ b) o
prepend-prepend x b none = refl
prepend-prepend x b (some out) = refl

unstuff-bytes :
    (b rest : List ℕ) (z : Bool) → unstuff (length b) z (b ++ rest) ≡ prepend b (unstuff 0 z rest)
unfolding unstuff
unstuff-bytes [] rest z = sym (prepend-nil (unstuff 0 z rest))
unstuff-bytes (x ∷ b) rest z =
    ap (prepend (x ∷ [])) (unstuff-bytes b rest z) ∙ prepend-prepend x b (unstuff 0 z rest)

-- A block of fewer than 254 bytes is followed by a zero, unless it is the last.
unstuff-block :
    (b rest out : List ℕ) (z : Bool)
    → length b < 255
    → unstuff 0 (not (length b == 254)) rest ≡ some out
    → unstuff 0 z (block b rest) ≡ some (before z (b ++ out))
unfolding unstuff
unstuff-block b rest out z h e =
    let code : (length b + 1 == 0) ≡ false = ground arith in
    let last : (length b + 1 == 255) ≡ (length b == 254) = ground arith in
    let len : length b + 1 - 1 ≡ length b = omega arith in
    let bytes : unstuff (length b + 1 - 1) (not (length b + 1 == 255)) (b ++ rest)
        ≡ some (b ++ out) =
      ap (λ n. unstuff n (not (length b + 1 == 255)) (b ++ rest)) len
      ∙ ap (λ t. unstuff (length b) (not t) (b ++ rest)) last
      ∙ unstuff-bytes b rest (not (length b == 254))
      ∙ ap (prepend b) e in
    rw code
      (elim z
        as (λ z.
          (if z
            then prepend (0 ∷ [])
                (unstuff (length b + 1 - 1) (not (length b + 1 == 255)) (b ++ rest))
            else unstuff (length b + 1 - 1) (not (length b + 1 == 255)) (b ++ rest))
          ≡ some (before z (b ++ out))) [ true ↦ ap (prepend (0 ∷ [])) bytes | false ↦ bytes ])

unstuff-stuff :
    (b xs : List ℕ) (z : Bool)
    → length b < 254
    → unstuff 0 z (stuff b xs) ≡ some (before z (b ++ xs))
unfolding stuff
unstuff-stuff b [] z h = unstuff-block b [] [] z (omega arith) (unfold unstuff in refl)
unstuff-stuff b (x ∷ xs) z h =
    let one : length (b ++ (x ∷ [])) ≡ length b + 1 = length-append b (x ∷ []) in
    elim (Bool-cases (x == 0)) [
      | inl zero_byte ↦
          let e : x ≡ 0 = ground arith in
          let short : (length b == 254) ≡ false = ground arith in
          rw (stuff_zero b x xs zero_byte) (
            unstuff-block b (stuff [] xs) (x ∷ xs) z (omega arith)
              (rw short (unstuff-stuff [] xs true (omega arith) ∙ ap (λ n. some (n ∷ xs)) (sym e))))
      | inr other ↦ elim (Bool-cases (length b == 253)) [
        | inl full ↦
            let long : (length (b ++ (x ∷ [])) == 254) ≡ true = ground (arith, one) in
            rw (stuff_full b x xs other full) (
              unstuff-block (b ++ (x ∷ [])) (stuff [] xs) xs z (omega (arith, one))
                (rw long (unstuff-stuff [] xs false (omega arith)))
              ∙ ap (λ l. some (before z l)) (append_assoc b (x ∷ []) xs))
        | inr room ↦
            let ne : length b < 253 = ground arith in
            rw (stuff_more b x xs other room) (
              unstuff-stuff (b ++ (x ∷ [])) xs z (omega (arith, one, ne))
              ∙ ap (λ l. some (before z l)) (append_assoc b (x ∷ []) xs))
      ]
    ]

-- The predicate holds of the list, if there is one.
abbrev OnSome : (List ℕ → Type 0) → Option (List ℕ) → Type 0
OnSome P none = Unit
OnSome P (some out) = P out

prepend-OnSome :
    (P Q : List ℕ → Type 0) (b : List ℕ) (o : Option (List ℕ))
    → ((out : List ℕ) → P out → Q (b ++ out))
    → OnSome P o
    → OnSome Q (prepend b o)
prepend-OnSome P Q b none f h = tt
prepend-OnSome P Q b (some out) f h = f out h

imp-OnSome :
    (P Q : List ℕ → Type 0) (o : Option (List ℕ))
    → ((out : List ℕ) → P out → Q out)
    → OnSome P o
    → OnSome Q o
imp-OnSome P Q none f h = tt
imp-OnSome P Q (some out) f h = f out h

some-OnSome :
    (P : List ℕ → Type 0) (o : Option (List ℕ)) (out : List ℕ) → o ≡ some out → OnSome P o → P out
some-OnSome P o out e h = subst (OnSome P) e h

-- What the first code of a chunk leads to.
unstuff-code :
    (P Q : List ℕ → Type 0) (c : ℕ) (xs : List ℕ) (z : Bool)
    → OnSome P (unstuff (c - 1) (not (c == 255)) xs)
    → ((out : List ℕ) → P out → Q (0 ∷ out))
    → ((out : List ℕ) → P out → Q out)
    → OnSome Q (unstuff 0 z (c ∷ xs))
unfolding unstuff
unstuff-code P Q c xs z h f g = elim (Bool-cases (c == 0)) [
  | inl zero_byte ↦ rw zero_byte tt
  | inr other ↦ rw other (split_flag z)
]
  where
    split_flag :
        (z : Bool)
        → OnSome Q (
            if z
            then prepend (0 ∷ []) (unstuff (c - 1) (not (c == 255)) xs)
            else unstuff (c - 1) (not (c == 255)) xs)
    split_flag true = prepend-OnSome P Q (0 ∷ []) (unstuff (c - 1) (not (c == 255)) xs) f h
    split_flag false = imp-OnSome P Q (unstuff (c - 1) (not (c == 255)) xs) g h

unstuff_byte :
    (k : ℕ) (z : Bool) (x : ℕ) (xs : List ℕ)
    → unstuff (suc k) z (x ∷ xs) ≡ prepend (x ∷ []) (unstuff k z xs)
unfolding unstuff
unstuff_byte k z x xs = refl

length-unstuff :
    (k : ℕ) (z : Bool) (xs : List ℕ) → OnSome (λ out. length out ≤ length xs) (unstuff k z xs)
length-unstuff zero z [] = unfold unstuff in omega arith
length-unstuff (suc k) z [] = unfold unstuff in tt
length-unstuff zero z (c ∷ xs) =
    unstuff-code (λ out. length out ≤ length xs) (λ out. length out ≤ length (c ∷ xs)) c xs z
      (length-unstuff (c - 1) (not (c == 255)) xs) (λ out h. omega (arith, h))
      (λ out h. omega (arith, h))
length-unstuff (suc k) z (x ∷ xs) =
    let h = length-unstuff k z xs in
    rw (unstuff_byte k z x xs) (
      prepend-OnSome (λ out. length out ≤ length xs) (λ out. length out ≤ length (x ∷ xs)) (x ∷ [])
        (unstuff k z xs) (λ out h. omega (arith, h)) h)

unstuff-IsU8 : (k : ℕ) (z : Bool) (xs : List ℕ) → All IsU8 xs → OnSome (All IsU8) (unstuff k z xs)
unstuff-IsU8 zero z [] b = unfold unstuff in tt
unstuff-IsU8 (suc k) z [] b = unfold unstuff in tt
unstuff-IsU8 zero z (c ∷ xs) (b, bs) =
    unstuff-code (All IsU8) (All IsU8) c xs z (unstuff-IsU8 (c - 1) (not (c == 255)) xs bs)
      (λ out h. (omega arith, h)) (λ out h. h)
unstuff-IsU8 (suc k) z (x ∷ xs) (b, bs) =
    let h = unstuff-IsU8 k z xs bs in
    rw (unstuff_byte k z x xs)
      (prepend-OnSome (All IsU8) (All IsU8) (x ∷ []) (unstuff k z xs) (λ out h. (b, h)) h)

-- What `decode_in_place` leaves in the buffer.
length-decoded :
    (buf : List ℕ) (o : Option (List ℕ))
    → OnSome (λ out. length out ≤ length buf) o
    → length (decoded buf o).1 ≡ length buf
length-decoded buf none h = refl
length-decoded buf (some out) h =
    omega (arith, h, length-append out (drop (length out) buf), length-drop (length out) buf)

decoded_le :
    (buf : List ℕ) (o : Option (List ℕ)) (n : ℕ)
    → OnSome (λ out. length out ≤ length buf) o
    → (decoded buf o).0 ≡ some n
    → n ≤ length buf
decoded_le buf none n h e = cc
decoded_le buf (some out) n h e = let same : length out ≡ n = cc in omega (arith, h, same)

decoded-IsU8 :
    (buf : List ℕ) (o : Option (List ℕ))
    → OnSome (All IsU8) o
    → All IsU8 buf
    → All IsU8 (decoded buf o).1
decoded-IsU8 buf none h b = b
decoded-IsU8 buf (some out) h b =
    All-append IsU8 out (drop (length out) buf) h (All-drop (length out) buf b)

pub cobs-laws : CobsLaws cobs
cobs-laws = record {
  encoded = stuff [];
  encode_lem = λ src dest fits. refl;
  length-encoded = λ src pos. omega (arith, length-stuff [] src (omega arith));
  max_encoding_length_le = λ n pos. omega arith;
  encoded_pos = stuff_pos [];
  encoded-IsNonzeroU8 = λ src b. stuff-IsNonzeroU8 [] src (omega arith) tt b;
  length-decode = λ buf. length-decoded buf (unstuff 0 false buf) (length-unstuff 0 false buf);
  decode-le = λ buf n e. decoded_le buf (unstuff 0 false buf) n (length-unstuff 0 false buf) e;
  decode-IsU8 = λ buf b. decoded-IsU8 buf (unstuff 0 false buf) (unstuff-IsU8 0 false buf b) b;
  tail = λ src. drop (length src) (stuff [] src);
  decode-encoded = λ src b. ap (decoded (stuff [] src)) (unstuff-stuff [] src false (omega arith));
}
