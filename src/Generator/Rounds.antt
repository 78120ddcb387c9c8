-- ===== src/Generator/Rounds.antt =====
-- The rounds of the generator: what it emits.
use rust_telemetry_logger.Prelude.{
  ℕ, ◌+◌, ◌≡◌, ◌∙◌, ap, refl, sym, arith, Bool-cases, inl, inr, List, [], ◌∷◌, ◌++◌, ret, IsU32,
  length, length-append, length-drop, drop, append_assoc, slice, slice_front, wrapping_add_u32,
}
use rust_telemetry_logger.External.Cobs.{Cobs, CobsLaws}
use rust_telemetry_logger.External.Crc.{Crc}
use rust_telemetry_logger.External.Heapless.{ByteVec, ByteVecLaws}
use rust_telemetry_logger.Frame.{Frame, max_cobs_frame_bytes}
use rust_telemetry_logger.Frame.Wire.{body, length-body, encode_cobs_fits}
use rust_telemetry_logger.Framer.RoundTrip.{wire}
use rust_telemetry_logger.Generator.{
  CorruptMode, GenStats, CorruptResult, Rng, GenState, has_seq_gap, skip_sequence, emit_result,
  gen_round,
}
use rust_telemetry_logger.Generator.Frames.{RngLaws, IsGenerated, build_frame-IsGenerated}
use rust_telemetry_logger.Generator.Corruption.{drawn, IsCorrupted, apply_corruption-IsCorrupted}

-- The loop's variables between two rounds.
pub record IsGenState {G : Type 0} (st : GenState G) : Type 0 where
  pub seq : IsU32 st.seq
  pub buf : length st.buf ≡ max_cobs_frame_bytes

module _ {G : Type 0} {rng : Rng G} (laws : RngLaws rng) where
  skip_sequence-IsU32 :
      (modes : List CorruptMode) (seq : ℕ) (g : G) (s : GenStats)
      → IsU32 seq
      → IsU32 (skip_sequence rng modes seq g s).0
  unfolding skip_sequence
  skip_sequence-IsU32 modes seq g s h = elim (Bool-cases (has_seq_gap modes)) [
    | inr absent ↦ rw (absent, skip_sequence) h
    | inl present ↦ elim (Bool-cases (rng.below g).0) [
      | inl hit ↦ rw (present, hit, skip_sequence) (omega arith)
      | inr miss ↦ rw (present, miss, skip_sequence) h
    ]
  ]

  module _ {v : ByteVec} (vl : ByteVecLaws v) (crc16 : Crc) {cobs : Cobs} (k : CobsLaws cobs) where
    -- A round: a frame, and what is made of its wire.
    pub record IsRound (modes : List CorruptMode) (burst_size : ℕ) (st : GenState G)
        (emitted : List (List ℕ)) (st' : GenState G) : Type 0 where
      pub frame : Frame
      pub generated : IsGenerated laws (skip_sequence rng modes st.seq st.rng st.stats).0 frame
      pub before : G
      pub result : CorruptResult
      pub stats : GenStats
      pub corrupted :
          IsCorrupted rng
            (wire crc16 k frame)
            burst_size
            (skip_sequence rng modes st.seq st.rng st.stats).2
            (drawn rng modes before).0
            (drawn rng modes before).1
            result
            st'.rng
            stats
      pub emits : emitted ≡ (emit_result rng result (wire crc16 k frame) stats).0
      pub counts : st'.stats ≡ (emit_result rng result (wire crc16 k frame) stats).1
      pub next : st'.seq ≡ wrapping_add_u32 frame.header.sequence 1

    pub gen_round-IsRound :
        (modes : List CorruptMode) (burst_size : ℕ) (st : GenState G)
        → IsGenState st
        → (emitted : List (List ℕ)) × (st' : GenState G) × (gen_round rng v crc16 cobs modes
              burst_size st
            ≡ ret (emitted, st'))
          × IsGenState st'
          × IsRound modes burst_size st emitted st'
    unfolding gen_round
    gen_round-IsRound modes burst_size st h =
        let (seq, g, stats) = skip_sequence rng modes st.seq st.rng st.stats in
        let (f, g', built, generated) =
          build_frame-IsGenerated laws vl crc16 cobs seq g
            (skip_sequence-IsU32 modes st.seq st.rng st.stats h.seq) in
        let b = body crc16 k f in
        let fits = generated.frame.fits in
        let encoded = encode_cobs_fits crc16 k f st.buf fits (omega (arith, h.buf)) in
        let sliced : slice (b ++ (0 ∷ drop (length b + 1) st.buf)) 0 (length b + 1)
            ≡ ret (wire crc16 k f) =
          ap (λ l. slice l 0 (length b + 1))
            (sym (append_assoc b (0 ∷ []) (drop (length b + 1) st.buf)))
          ∙ slice_front (wire crc16 k f) (drop (length b + 1) st.buf) (length b + 1)
              (omega (arith, length-append b (0 ∷ []))) in
        let (r, g'', stats', run, corrupted) =
          apply_corruption-IsCorrupted laws (wire crc16 k f) burst_size modes g' stats in
        let st' : GenState G = record {
          rng = g'';
          seq = wrapping_add_u32 seq 1;
          stats = (emit_result rng r (wire crc16 k f) stats').1;
          buf = b ++ (0 ∷ drop (length b + 1) st.buf);
        } in
        (
          (emit_result rng r (wire crc16 k f) stats').0,
          st',
          rw (built, encoded, sliced, run) refl,
          record {
            seq = omega arith;
            buf = omega (
              arith,
              h.buf,
              length-body crc16 k f fits,
              length-append b (0 ∷ drop (length b + 1) st.buf),
              length-drop (length b + 1) st.buf,
            );
          },
          record {
            frame = f;
            generated = generated;
            before = g';
            result = r;
            stats = stats';
            corrupted = corrupted;
            emits = refl;
            counts = refl;
            next = ap (λ n. wrapping_add_u32 n 1) (sym generated.sequence);
          },
        )
