-- ===== src/Generator.antt =====
-- tools/packet-generator/src/main.rs: the frames of the test generator.
pub mod Frames
pub mod Corruption
pub mod Modes
pub mod Sink
pub mod Main
pub mod Rounds
pub mod Stream
pub mod Sent
use Prim.Native.Nat.{bit_xor}
use rust_telemetry_logger.Prelude.{
  ℕ, zero, suc, min, ◌+◌, ◌-◌, ◌%◌, ◌^◌, not, Bool, true, false, List, [], ◌∷◌, ◌++◌, Option, none,
  some, Run, ret, ◌>>=◌, ltb, length, replicate, index, slice, set_index, if◌then◌else◌,
  wrapping_add_u32,
}
use rust_telemetry_logger.External.Cobs.{Cobs}
use rust_telemetry_logger.External.Crc.{Crc}
use rust_telemetry_logger.External.Heapless.{ByteVec}
use rust_telemetry_logger.Frame.{Frame, encode_cobs, max_cobs_frame_bytes}
use rust_telemetry_logger.Frame

pub data CorruptMode : Type 0 where
  bad_crc truncate seq_gap burst : CorruptMode

pub record GenStats : Type 0 where
  pub valid : ℕ
  pub bad_crc : ℕ
  pub truncated : ℕ
  pub seq_gap : ℕ
  pub burst_extra : ℕ

abbrev pub types : List ℕ
types = 0x01 ∷ 0x02 ∷ 0x03 ∷ 0x04 ∷ 0x05 ∷ []

abbrev pub severities : List ℕ
severities = 0x00 ∷ 0x01 ∷ 0x01 ∷ 0x01 ∷ 0x02 ∷ 0x02 ∷ 0x03 ∷ 0x04 ∷ []

pub data CorruptResult : Type 0 where
  original : CorruptResult
  bytes : List ℕ → CorruptResult
  burst_frames : List (List ℕ) → CorruptResult

-- The random numbers: `below` is `rng.random::<f64>() < rate` for the rate of the command line,
-- `range lo hi` is `rng.random_range(lo..hi)`, and `byte` is `rng.random::<u8>()`.
pub record Rng (G : Type 0) : Type 0 where
  pub below : G → Bool × G
  pub range : ℕ → ℕ → G → ℕ × G
  pub byte : G → ℕ × G

-- `modes.contains(&CorruptMode::SeqGap)`
unfoldable pub has_seq_gap : List CorruptMode → Bool
has_seq_gap [] = false
has_seq_gap (seq_gap ∷ modes) = true
has_seq_gap (bad_crc ∷ modes) = has_seq_gap modes
has_seq_gap (truncate ∷ modes) = has_seq_gap modes
has_seq_gap (burst ∷ modes) = has_seq_gap modes

module _ {G : Type 0} (rng : Rng G) where
  -- A byte before the delimiter, flipped.
  unfoldable pub flip_byte : List ℕ → G → GenStats → Run (CorruptResult × G × GenStats)
  flip_byte encoded g s =
      if ltb (length encoded) 2
      then ret (original, g, s)
      else (let (pos, g') = rng.range 0 (length encoded - 1) g in
          index encoded pos >>= λ b. set_index encoded pos (bit_xor b 0xAA) >>= λ corrupted.
          ret (bytes corrupted, g', record s { bad_crc = (s.bad_crc + 1) % 2 ^ 32 }))

  -- The front of the frame, and a delimiter.
  unfoldable pub cut_frame : List ℕ → G → GenStats → Run (CorruptResult × G × GenStats)
  cut_frame encoded g s =
      if ltb (length encoded) 3
      then ret (original, g, s)
      else (let (trunc_len, g') = rng.range 1 (length encoded - 1) g in
          slice encoded 0 trunc_len >>= λ truncated. ret (
            bytes (truncated ++ (0x00 ∷ [])),
            g',
            record s { truncated = (s.truncated + 1) % 2 ^ 32 },
          ))

  unfoldable pub apply_corruption :
      List ℕ → List CorruptMode → ℕ → G → GenStats → Run (CorruptResult × G × GenStats)
  apply_corruption encoded [] burst_size g s = ret (original, g, s)
  apply_corruption encoded (mode ∷ modes) burst_size g s =
      let (hit, g') = rng.below g in
      let rest = apply_corruption encoded modes burst_size g' s in
      if not hit then rest else elim mode [
        | bad_crc ↦ flip_byte encoded g' s
        | truncate ↦ cut_frame encoded g' s
        | seq_gap ↦ rest
        | burst ↦ ret (
          burst_frames (encoded ∷ replicate burst_size encoded),
          g',
          record s { burst_extra = (s.burst_extra + burst_size) % 2 ^ 32 },
        )
      ]

  -- `n` random bytes.
  unfoldable pub random_bytes : ℕ → G → List ℕ × G
  random_bytes zero g = ([], g)
  random_bytes (suc n) g =
      let (b, g') = rng.byte g in let (bs, g'') = random_bytes n g' in (b ∷ bs, g'')

  -- The step of `seq-gap` mode.
  unfoldable pub skip_sequence : List CorruptMode → ℕ → G → GenStats → ℕ × G × GenStats
  skip_sequence modes seq g s =
      if not (has_seq_gap modes)
      then (seq, g, s)
      else (let (hit, g') = rng.below g in
          let (skip, g'') = rng.range 2 6 g' in
          if hit
          then (wrapping_add_u32 seq skip, g'', record s { seq_gap = (s.seq_gap + 1) % 2 ^ 32 })
          else (seq, g', s))

  -- What is emitted, and the statistics.
  unfoldable pub emit_result : CorruptResult → List ℕ → GenStats → List (List ℕ) × GenStats
  emit_result original encoded s = (encoded ∷ [], record s { valid = (s.valid + 1) % 2 ^ 32 })
  emit_result (bytes b) encoded s = (b ∷ [], s)
  emit_result (burst_frames frames) encoded s =
      (frames, record s { valid = (s.valid + 1) % 2 ^ 32 })

-- The variables of the loop of `main`; `buf` is `frame_buf`.
pub record GenState (G : Type 0) : Type 0 where
  pub rng : G
  pub seq : ℕ
  pub stats : GenStats
  pub buf : List ℕ

module _ {G : Type 0} (rng : Rng G) (v : ByteVec) (crc16 : Crc) (cobs : Cobs) where
  -- The frame of one round, from random fields; `none` is a payload that `Frame::new` refuses.
  unfoldable pub build_frame : ℕ → G → Run (Option Frame × G)
  build_frame seq g =
      let (t, g₁) = rng.range 0 (length types) g in
      index types t >>= λ ptype.
      let (s, g₂) = rng.range 0 (length severities) g₁ in
      index severities s >>= λ severity.
      let (payload_len, g₃) = rng.range 0 17 g₂ in
      let (filled, g₄) = random_bytes rng (min payload_len 16) g₃ in
      slice (filled ++ replicate (16 - length filled) 0) 0 payload_len >>= λ payload.
      ret (Frame.new v ptype severity seq payload, g₄)

  -- A round of the loop: what it emits, and the variables afterwards. Without a frame or without
  -- room for its encoding the round ends before the sequence number is incremented.
  unfoldable pub gen_round : List CorruptMode → ℕ → GenState G → Run (List (List ℕ) × GenState G)
  gen_round modes burst_size st =
      let (seq, g, stats) = skip_sequence rng modes st.seq st.rng st.stats in
      build_frame seq g >>= λ built. elim built.0 [
        | none ↦ ret ([], record { rng = built.1; seq = seq; stats = stats; buf = st.buf })
        | some frame ↦ encode_cobs crc16 cobs frame st.buf >>= λ encoded. elim encoded.0 [
          | none ↦ ret ([], record { rng = built.1; seq = seq; stats = stats; buf = encoded.1 })
          | some n ↦ slice encoded.1 0 n >>= λ wire.
              apply_corruption rng wire modes burst_size built.1 stats >>= λ corrupted.
              let (emitted, stats') = emit_result rng corrupted.0 wire corrupted.2 in
              ret (
                emitted,
                record {
                  rng = corrupted.1;
                  seq = wrapping_add_u32 seq 1;
                  stats = stats';
                  buf = encoded.1;
                },
              )
        ]
      ]

  -- The loop, `count` times.
  unfoldable pub generate : ℕ → List CorruptMode → ℕ → GenState G → Run (List (List ℕ) × GenState G)
  generate zero modes burst_size st = ret ([], st)
  generate (suc count) modes burst_size st = do
    (emitted, st') ← gen_round modes burst_size st
    (rest, st'') ← generate count modes burst_size st'
    ret (emitted ++ rest, st'')
