-- ===== src/Generator/Frames.antt =====
-- The frames of the generator: what `build_frame` makes from any random numbers.
use rust_telemetry_logger.Prelude.{
  ℕ, List, [], ◌∷◌, wrapping_add_u32, zero, suc, min, ◌-◌, ◌≤◌, ◌<◌, ◌≡◌, ap, refl, sym, arith,
  some, ◌++◌, ret, inl, inr, All, IsU8, IsU32, length, replicate, slice, index-All, slice_front,
  subst,
}
use rust_telemetry_logger.External.Heapless.{ByteVec, ByteVecLaws}
use rust_telemetry_logger.External.Cobs.{Cobs}
use rust_telemetry_logger.External.Crc.{Crc}
use rust_telemetry_logger.Frame.{Frame, IsFrame}
use rust_telemetry_logger.Frame.New.{new-IsFrame}
use rust_telemetry_logger.Generator.{Rng, types, severities, random_bytes, build_frame}
use rust_telemetry_logger.Validator.Accept.{IsKnownType, IsKnownSeverity}

-- The documented results of `random_range(lo..hi)`, for a range that is not empty, and of
-- `random::<u8>()`.
pub record RngLaws {G : Type 0} (rng : Rng G) : Type 0 where
  pub range-lt :
      (lo hi : ℕ) (g : G) → lo < hi → (lo ≤ (rng.range lo hi g).0) × ((rng.range lo hi g).0 < hi)
  pub byte-IsU8 : (g : G) → IsU8 (rng.byte g).0

types_known : All IsKnownType types
types_known = omega arith

severities_known : All IsKnownSeverity severities
severities_known = omega arith

module _ {G : Type 0} {rng : Rng G} (laws : RngLaws rng) where
  random_bytes-IsU8 :
      (n : ℕ) (g : G) → All IsU8 (random_bytes rng n g).0 × (length (random_bytes rng n g).0 ≡ n)
  unfolding random_bytes
  random_bytes-IsU8 zero g = (tt, refl)
  random_bytes-IsU8 (suc n) g =
      let (bytes, len) = random_bytes-IsU8 n (rng.byte g).1 in
      ((laws.byte-IsU8 g, bytes), ap suc len)

  -- The frame of a round: well formed, of a known type and severity, with the round's number.
  pub record IsGenerated (seq : ℕ) (f : Frame) : Type 0 where
    pub frame : IsFrame f
    pub known_type : IsKnownType f.header.packet_type
    pub known_severity : IsKnownSeverity f.header.severity
    pub sequence : f.header.sequence ≡ seq
    pub short : length f.payload ≤ 16

  -- Frames with consecutive sequence numbers, the first one `seq`.
  abbrev pub Numbered : ℕ → List Frame → Type 0
  Numbered seq [] = Unit
  Numbered seq (f ∷ fs) = IsGenerated seq f × Numbered (wrapping_add_u32 seq 1) fs

  module _ {v : ByteVec} (vl : ByteVecLaws v) (crc16 : Crc) (cobs : Cobs) where
    -- Whatever the random numbers are, a frame is built, without a panic.
    pub build_frame-IsGenerated :
        (seq : ℕ) (g : G)
        → IsU32 seq
        → (f : Frame) × (g' : G) × (build_frame rng v crc16 cobs seq g ≡ ret (some f, g'))
          × IsGenerated seq f
    unfolding build_frame
    build_frame-IsGenerated seq g h =
        let (t, g₁) = rng.range 0 5 g in
        let (ptype, typed, known) =
          index-All IsKnownType types t types_known (laws.range-lt 0 5 g (omega arith)).1 in
        let (s, g₂) = rng.range 0 8 g₁ in
        let (severity, graded, known') =
          index-All IsKnownSeverity severities s severities_known
            (laws.range-lt 0 8 g₁ (omega arith)).1 in
        let (n, g₃) = rng.range 0 17 g₂ in
        let small : n < 17 = (laws.range-lt 0 17 g₂ (omega arith)).1 in
        let (filled, g₄) = random_bytes rng (min n 16) g₃ in
        let (bytes, len) = random_bytes-IsU8 (min n 16) g₃ in
        let sliced : slice (filled ++ replicate (16 - length filled) 0) 0 n ≡ ret filled =
          slice_front filled (replicate (16 - length filled) 0) n (omega (arith, len)) in
        elim (new-IsFrame vl ptype severity seq filled (omega arith) (omega arith) h bytes) [
          | inl (long, _) ↦ absurd (omega (arith, len))
          | inr (fits, f, made, frame, _, type_eq, severity_eq, sequence_eq, payload_eq) ↦ (
            f,
            g₄,
            rw (typed, graded, sliced) (ap (λ o. ret (o, g₄)) made),
            record {
              frame = frame;
              known_type = subst IsKnownType (sym type_eq) known;
              known_severity = subst IsKnownSeverity (sym severity_eq) known';
              sequence = sequence_eq;
              short = omega (arith, len, ap length payload_eq);
            },
          )
        ]
