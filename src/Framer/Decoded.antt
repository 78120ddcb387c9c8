-- ===== src/Framer/Decoded.antt =====
-- Every outcome of `Framer::process` on decoded bytes.
use rust_telemetry_logger.Prelude.{
  ℕ, ◌+◌, ◌≤◌, ◌≡◌, ◌∙◌, ap, sym, subst, arith, List, [], ◌∷◌, ◌++◌, ret, ltb, lt→ltb, ltb→ge,
  ==_iff, ◌==◌, ◌⊎◌, inl, inr, Bool-cases, length, index, u16_of, u32_of, le16, le32, le16-u16_of,
  le32-u32_of, All, IsU8, split_two, All-append_left,
}
use rust_telemetry_logger.Protocol.{max_payload}
use rust_telemetry_logger.External.Heapless.{ByteVec, ByteVecLaws}
use rust_telemetry_logger.External.Cobs.{Cobs}
use rust_telemetry_logger.Frame.{Frame, IsFrame, raw_len}
use rust_telemetry_logger.Framer.{complete, parse_error, check_decoded}
use rust_telemetry_logger.Framer.Parse.{frame_bytes, frame_bytes-append, check_decoded-frame_bytes}

-- The header bytes, decoded and encoded again.
header_eq :
    (f : Frame) (tail : List ℕ) (b₃ b₄ b₅ b₆ b₇ b₈ : ℕ)
    → le32 f.header.sequence ≡ b₃ ∷ b₄ ∷ b₅ ∷ b₆ ∷ []
    → le16 f.header.payload_len ≡ b₇ ∷ b₈ ∷ []
    → f.header.version
        ∷ f.header.packet_type
        ∷ f.header.severity
        ∷ b₃
        ∷ b₄
        ∷ b₅
        ∷ b₆
        ∷ b₇
        ∷ b₈
        ∷ (f.payload ++ (f.crc_bytes.0 ∷ f.crc_bytes.1 ∷ tail))
      ≡ frame_bytes f ++ tail
header_eq f tail b₃ b₄ b₅ b₆ b₇ b₈ e e' = rw (frame_bytes-append f tail) (cc)

module _ {v : ByteVec} (vl : ByteVecLaws v) (cobs : Cobs) where
  -- The decoded bytes are those of a frame, and that frame is the output.
  pub record IsDecoded (buf : List ℕ) (n : ℕ) : Type 0 where
    pub frame : Frame
    pub tail : List ℕ
    pub bytes : buf ≡ frame_bytes frame ++ tail
    pub decoded_len : n ≡ raw_len frame
    pub valid : IsFrame frame
    pub output : check_decoded v cobs buf n ≡ ret (complete frame)

  abbrev Decodes : List ℕ → ℕ → Type 0
  Decodes buf n = IsDecoded buf n ⊎ (check_decoded v cobs buf n ≡ ret parse_error)

  frame_of :
      (buf : List ℕ) (n : ℕ) (f : Frame) (tail : List ℕ)
      → buf ≡ frame_bytes f ++ tail
      → n ≡ raw_len f
      → IsFrame f
      → Decodes buf n
  frame_of buf n f tail e e' h = inl (record {
    frame = f;
    tail = tail;
    bytes = e;
    decoded_len = e';
    valid = h;
    output = rw (e, e') (check_decoded-frame_bytes vl cobs f tail h);
  })

  decode_header :
      (b₀ b₁ b₂ b₃ b₄ b₅ b₆ b₇ b₈ : ℕ) (rest : List ℕ) (n : ℕ)
      → All IsU8 (b₀ ∷ b₁ ∷ b₂ ∷ b₃ ∷ b₄ ∷ b₅ ∷ b₆ ∷ b₇ ∷ b₈ ∷ rest)
      → n ≤ length rest + 9
      → u16_of b₇ b₈ ≤ max_payload
      → n ≡ 9 + u16_of b₇ b₈ + 2
      → Decodes (b₀ ∷ b₁ ∷ b₂ ∷ b₃ ∷ b₄ ∷ b₅ ∷ b₆ ∷ b₇ ∷ b₈ ∷ rest) n
  unfolding raw_len
  decode_header b₀ b₁ b₂ b₃ b₄ b₅ b₆ b₇ b₈ rest n
        (h₀, (h₁, (h₂, (h₃, (h₄, (h₅, (h₆, (h₇, (h₈, h))))))))) fits small e =
      let (payload, c₀, c₁, tail, split, len) = split_two (u16_of b₇ b₈) rest (omega arith) in
      let g : Frame = record {
        header = record {
          version = b₀;
          packet_type = b₁;
          severity = b₂;
          sequence = u32_of b₃ b₄ b₅ b₆;
          payload_len = u16_of b₇ b₈;
        };
        payload = payload;
        crc_bytes = (c₀, c₁);
      } in
      frame_of _ n g tail
        (ap (λ l. b₀ ∷ b₁ ∷ b₂ ∷ b₃ ∷ b₄ ∷ b₅ ∷ b₆ ∷ b₇ ∷ b₈ ∷ l) split
          ∙ header_eq g tail b₃ b₄ b₅ b₆ b₇ b₈ (le32-u32_of b₃ b₄ b₅ b₆ h₃ h₄ h₅ h₆)
              (le16-u16_of b₇ b₈ h₇ h₈))
        (omega arith)
        (record {
          version = h₀;
          packet_type = h₁;
          severity = h₂;
          sequence = omega arith;
          payload_len = sym len;
          payload = All-append_left IsU8 payload (c₀ ∷ c₁ ∷ tail) (subst (All IsU8) split h);
          fits = omega arith;
        })

  -- Decoded bytes that fit in the buffer are those of a frame, which is the output, or they are
  -- refused with `ParseError`.
  pub check_decoded_cases : (buf : List ℕ) (n : ℕ) → All IsU8 buf → n ≤ length buf → Decodes buf n
  check_decoded_cases (b₀ ∷ b₁ ∷ b₂ ∷ b₃ ∷ b₄ ∷ b₅ ∷ b₆ ∷ b₇ ∷ b₈ ∷ rest) n h fits =
      let plen = u16_of b₇ b₈ in
      elim (Bool-cases (ltb n 11)) [
        | inl short ↦ inr (unfold check_decoded in rw short)
        | inr long ↦ elim (Bool-cases (ltb max_payload plen)) [
          | inl large ↦ inr (unfold check_decoded index in rw (long, large))
          | inr small ↦ elim (Bool-cases (n == 9 + plen + 2)) [
            | inl same ↦
                decode_header b₀ b₁ b₂ b₃ b₄ b₅ b₆ b₇ b₈ rest n h (omega arith) (ltb→ge _ _ small)
                  ((==_iff _ _).0 same)
            | inr other ↦ inr (unfold check_decoded index in rw (long, small, other))
          ]
        ]
      ]
  check_decoded_cases buf n h fits = inr (unfold check_decoded in rw (lt→ltb n 11 (omega arith)))
