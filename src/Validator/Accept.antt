-- ===== src/Validator/Accept.antt =====
-- Which frames `Validator::check` accepts, and the state that it leaves.
use rust_telemetry_logger.Prelude.{
  ℕ, ◌≤◌, ◌≡◌, sym, arith, ◌++◌, some, none, ◌↔◌, ◌⊎◌, inl, inr, refl, length, u16_of, u16_of-le16,
  Option, wrapping_add_u32, ◌^◌,
}
use rust_telemetry_logger.Protocol.{packet_type_of, severity_of}
use rust_telemetry_logger.Error.{
  Outcome, Reason, accepted, rejected, filtered, sequence_gap, crc, bad_length,
}
use rust_telemetry_logger.External.Crc.{Crc, CrcLaws}
use rust_telemetry_logger.Frame.{Frame, IsFrame, compute_crc}
use rust_telemetry_logger.Frame.Layout.{header_bytes}
use rust_telemetry_logger.Framer.RoundTrip.{stamped}
use rust_telemetry_logger.Validator.{Validator, computed_crc, check_sequence, check}

-- The frame's sequence number is the next one, or the first.
abbrev pub IsNext : Option ℕ → ℕ → Type 0
IsNext none seq = Unit
IsNext (some last) seq = seq ≡ wrapping_add_u32 last 1

-- The discriminants of `PacketType` and of `Severity`.
abbrev pub IsKnownType : ℕ → Type 0
IsKnownType value = (1 ≤ value) × (value ≤ 5)

abbrev pub IsKnownSeverity : ℕ → Type 0
IsKnownSeverity value = value ≤ 4

Outcome-cases :
    (o : Outcome Frame) → ((f : Frame) × (o ≡ accepted f)) ⊎ ((r : Reason) × (o ≡ rejected r))
Outcome-cases (accepted f) = inl (f, refl)
Outcome-cases (rejected r) = inr (r, refl)

module _ (crc16 : Crc) where
  -- The checks that do not depend on the frames before.
  pub record IsSound (f : Frame) : Type 0 where
    pub crc_matches : computed_crc crc16 f ≡ u16_of f.crc_bytes.0 f.crc_bytes.1
    pub known_type : IsKnownType f.header.packet_type
    pub known_severity : IsKnownSeverity f.header.severity
    pub len : f.header.payload_len ≡ length f.payload

  -- A frame is accepted, as it is, exactly when its CRC matches, its type is 1 to 5 and its
  -- severity 0 to 4, its length field is the payload's length, and its sequence number is one more
  -- than the last, wrapping at 2 ^ 32, or there is no last. Its version plays no part.
  pub check_accepts_iff :
      (v : Validator) (f g : Frame)
      → ((check crc16 v f).0 ≡ accepted g)
        ↔ ((IsSound f × IsNext v.last_seq f.header.sequence) × (f ≡ g))
  unfolding check packet_type_of severity_of
  check_accepts_iff v f g = (ground arith, ground arith)

  -- The sequence number is remembered if the frame is accepted or rejected for a gap; any other
  -- rejection leaves the state alone.
  abbrev pub remembered : Option ℕ → ℕ → Outcome Frame → Option ℕ
  remembered last seq (accepted f) = some seq
  remembered last seq (rejected (sequence_gap expected got)) = some seq
  remembered last seq (rejected (crc expected actual)) = last
  remembered last seq (rejected filtered) = last
  remembered last seq (rejected bad_length) = last

  -- What `check` remembers on every branch.
  pub check_remembers :
      (v : Validator) (f : Frame)
      → (check crc16 v f).1.last_seq ≡ remembered v.last_seq f.header.sequence (check crc16 v f).0
  unfolding check
  check_remembers v f = ground arith

  pub check_sound : (v : Validator) (f : Frame) → IsSound f → check crc16 v f ≡ check_sequence v f
  unfolding check packet_type_of severity_of
  check_sound v f h = ground arith

  IsSound-decided : (f : Frame) → IsSound f ⊎ (¬ IsSound f)
  IsSound-decided f = ground arith

  pub check_in_order :
      (v : Validator) (f : Frame)
      → IsSound f
      → IsNext v.last_seq f.header.sequence
      → check crc16 v f ≡ (accepted f, record { last_seq = some f.header.sequence })
  unfolding check_sequence
  check_in_order v f h n = rw (check_sound v f h) (ground arith)

  check_unsound : (v : Validator) (f : Frame) → (¬ IsSound f) → (check crc16 v f).1 ≡ v
  unfolding check packet_type_of severity_of
  check_unsound v f bad = ground arith

  check_rejects :
      (v : Validator) (f : Frame)
      → ((r : Reason) × ((check crc16 v f).0 ≡ rejected r))
        ⊎ (IsSound f × IsNext v.last_seq f.header.sequence)
  check_rejects v f = elim (Outcome-cases (check crc16 v f).0) [
    | inl (g, accepts) ↦ inr ((check_accepts_iff v f g).0 accepts).0
    | inr (r, rejects) ↦ inl (r, rejects)
  ]

  check_out_of_order :
      (v : Validator) (f : Frame)
      → IsSound f
      → (¬ IsNext v.last_seq f.header.sequence)
      → (check crc16 v f).1 ≡ record { last_seq = some f.header.sequence }
  unfolding check_sequence
  check_out_of_order v f h n = rw (check_sound v f h) (ground arith)

  IsNext-decided : (last : Option ℕ) (seq : ℕ) → IsNext last seq ⊎ (¬ IsNext last seq)
  IsNext-decided none seq = inl tt
  IsNext-decided (some last) seq = ground arith

  -- The three outcomes of `check`, with the state behind them.
  pub check_cases :
      (v : Validator) (f : Frame)
      → ((¬ IsSound f) × (r : Reason) × (check crc16 v f ≡ (rejected r, v)))
        ⊎ (IsSound f
            × (¬ IsNext v.last_seq f.header.sequence)
            × (r : Reason) × (check crc16 v f
                ≡ (rejected r, record { last_seq = some f.header.sequence })))
        ⊎ (IsSound f
            × IsNext v.last_seq f.header.sequence
            × (check crc16 v f ≡ (accepted f, record { last_seq = some f.header.sequence })))
  check_cases v f = elim (IsSound-decided f) [
    | inr bad ↦ elim (check_rejects v f) [
      | inr (good, _) ↦ absurd (bad good)
      | inl (r, rejects) ↦ inl (bad, r, cc (rejects, check_unsound v f bad))
    ]
    | inl good ↦ elim (IsNext-decided v.last_seq f.header.sequence) [
      | inl follows ↦ inr (inr (good, follows, check_in_order v f good follows))
      | inr skips ↦ elim (check_rejects v f) [
        | inr (_, follows) ↦ absurd (skips follows)
        | inl (r, rejects) ↦
            inr (inl (good, skips, r, cc (rejects, check_out_of_order v f good skips)))
      ]
    ]
  ]

  -- Of two sound frames in a row the second is accepted exactly when its sequence number follows
  -- the first's, whether the first was accepted or rejected for a gap.
  pub check_next_iff :
      (v : Validator) (f g : Frame)
      → IsSound f
      → IsSound g
      → ((check crc16 (check crc16 v f).1 g).0 ≡ accepted g)
        ↔ (g.header.sequence ≡ wrapping_add_u32 f.header.sequence 1)
  unfolding check_sequence
  check_next_iff v f g hf hg =
      rw (check_sound v f hf)
        (rw (check_sound (check_sequence v f).1 g hg) (ground arith, ground arith))

  module _ (laws : CrcLaws (2 ^ 16) crc16) where
    -- The validator's CRC is the checksum of the nine header bytes and the payload.
    pub computed_crc-checksum :
        (f : Frame) → computed_crc crc16 f ≡ crc16.checksum (header_bytes f ++ f.payload)
    unfolding computed_crc
    computed_crc-checksum f =
        rw (computed_crc, laws.update-update, laws.update-update, laws.update-update)
          (sym (laws.checksum_lem (header_bytes f ++ f.payload)))

    -- The validator agrees with the CRC bytes of `Frame::compute_crc`.
    pub stamped_crc :
        (f : Frame)
        → computed_crc crc16 (stamped crc16 f)
          ≡ u16_of (compute_crc crc16 f).0 (compute_crc crc16 f).1
    unfolding computed_crc compute_crc
    stamped_crc f = sym (u16_of-le16 _ (laws.finalize-lt _))

    -- A well-formed frame with the CRC of its encoder, a known type and a known severity is
    -- judged by its sequence number alone.
    pub stamped-IsSound :
        (f : Frame)
        → IsFrame f
        → IsKnownType f.header.packet_type
        → IsKnownSeverity f.header.severity
        → IsSound (stamped crc16 f)
    stamped-IsSound f h t s = record {
      crc_matches = stamped_crc f;
      known_type = t;
      known_severity = s;
      len = h.payload_len;
    }
