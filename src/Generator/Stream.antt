-- ===== src/Generator/Stream.antt =====
-- `generate`: the whole run of the generator.
use rust_telemetry_logger.Prelude.{
  ℕ, zero, suc, ◌+◌, ◌%◌, ◌^◌, ◌≡◌, ◌∙◌, ap, refl, sym, subst, arith, List, [], ◌∷◌, ◌++◌, ret, All,
  All-append, All-imp, IsU32, length, wrapping_add_u32, map,
}
use rust_telemetry_logger.External.Cobs.{Cobs, CobsLaws}
use rust_telemetry_logger.External.Crc.{Crc}
use rust_telemetry_logger.External.Heapless.{ByteVec, ByteVecLaws}
use rust_telemetry_logger.Frame.{Frame}
use rust_telemetry_logger.Framer.RoundTrip.{wire}
use rust_telemetry_logger.Generator.{
  CorruptMode, GenStats, Rng, GenState, skip_sequence, has_seq_gap, emit_result, gen_round,
  generate,
}
use rust_telemetry_logger.Generator.Frames.{RngLaws, IsGenerated, Numbered}
use rust_telemetry_logger.Generator.Corruption.{
  drawn, IsCorrupted-none, IsRemnant, emit_result-IsRemnant,
}
use rust_telemetry_logger.Generator.Rounds.{IsGenState, IsRound, gen_round-IsRound}

module _ {G : Type 0} {rng : Rng G} (laws : RngLaws rng) {v : ByteVec} (vl : ByteVecLaws v)
    (crc16 : Crc) {cobs : Cobs} (k : CobsLaws cobs) where
  generate_step :
      (count : ℕ) (modes : List CorruptMode) (burst_size : ℕ) (st st' st'' : GenState G)
      (emitted rest : List (List ℕ))
      → gen_round rng v crc16 cobs modes burst_size st ≡ ret (emitted, st')
      → generate rng v crc16 cobs count modes burst_size st' ≡ ret (rest, st'')
      → generate rng v crc16 cobs (suc count) modes burst_size st ≡ ret (emitted ++ rest, st'')
  unfolding generate
  generate_step count modes burst_size st st' st'' emitted rest e e' = rw (e, e') refl

  -- A frame that the generator builds, and what is left of it on the wire.
  pub record IsEmitted (out : List ℕ) : Type 0 where
    pub seq : ℕ
    pub frame : Frame
    pub generated : IsGenerated laws seq frame
    pub remnant : IsRemnant (wire crc16 k frame) out

  -- With any corruption modes and any random numbers the generator runs its rounds without a panic,
  -- and all that it emits are well-formed frames of a known type and severity on the wire, each
  -- whole, with one byte in front of the delimiter flipped, or cut short and delimited.
  pub generate-IsEmitted :
      (count : ℕ) (modes : List CorruptMode) (burst_size : ℕ) (st : GenState G)
      → IsGenState st
      → (emitted : List (List ℕ)) × (st' : GenState G) × (generate rng v crc16 cobs count modes
            burst_size st
          ≡ ret (emitted, st'))
        × All IsEmitted emitted
        × IsGenState st'
  generate-IsEmitted zero modes burst_size st h = ([], st, unfold generate in refl, tt, h)
  generate-IsEmitted (suc count) modes burst_size st h =
      let (emitted, st', run, h', round) =
        gen_round-IsRound laws vl crc16 k modes burst_size st h in
      let (rest, st'', runs, all, h'') = generate-IsEmitted count modes burst_size st' h' in
      let encoded = wire crc16 k round.frame in
      let remnants =
        emit_result-IsRemnant laws encoded burst_size _ round.stats (drawn rng modes round.before).0
          (drawn rng modes round.before).1 st'.rng round.result round.corrupted in
      let first =
        All-imp (IsRemnant encoded) IsEmitted _
          (λ out left. record {
            seq = _;
            frame = round.frame;
            generated = round.generated;
            remnant = left;
          })
          remnants in
      (
        emitted ++ rest,
        st'',
        generate_step count modes burst_size st st' st'' emitted rest run runs,
        All-append IsEmitted emitted rest (subst (All IsEmitted) (sym round.emits) first) all,
        h'',
      )

  untouched :
      (st st' : GenState G) (emitted : List (List ℕ)) (burst_size : ℕ)
      (round : IsRound laws vl crc16 k [] burst_size st emitted st')
      → (emitted ≡ wire crc16 k round.frame ∷ [])
        × IsGenerated laws st.seq round.frame
        × (st'.stats ≡ record st.stats { valid = (st.stats.valid + 1) % 2 ^ 32 })
  unfolding emit_result skip_sequence has_seq_gap drawn
  untouched st st' emitted burst_size round =
      let (same, stats) = IsCorrupted-none rng round.corrupted in
      let encoded = wire crc16 k round.frame in
      (
        round.emits ∙ ap (λ r. (emit_result rng r encoded round.stats).0) same,
        round.generated,
        round.counts
            ∙ ap (λ r. (emit_result rng r encoded round.stats).1) same
            ∙ ap {A = GenStats} {B = GenStats} (λ s. record s { valid = (s.valid + 1) % 2 ^ 32 })
                stats,
      )

  -- Without corruption modes the generator emits `count` frames, as they are on the wire and nothing
  -- else: well formed, of known types and severities, with consecutive sequence numbers from that
  -- of the state on. It counts each of them as valid, modulo 2 ^ 32, and changes no other counter.
  pub generate-wires :
      (count burst_size : ℕ) (st : GenState G)
      → IsGenState st
      → IsU32 st.stats.valid
      → (fs : List Frame) × (st' : GenState G) × (generate rng v crc16 cobs count [] burst_size st
          ≡ ret (map (wire crc16 k) fs, st'))
        × Numbered laws st.seq fs
        × (length fs ≡ count)
        × (st'.stats ≡ record st.stats { valid = (st.stats.valid + count) % 2 ^ 32 })
  generate-wires zero burst_size st h u = (
    [],
    st,
    unfold generate in refl,
    tt,
    refl,
    ap {A = ℕ} {B = GenStats} (λ n. record st.stats { valid = n }) (omega arith),
  )
  generate-wires (suc count) burst_size st h u =
      let (emitted, st', run, h', round) = gen_round-IsRound laws vl crc16 k [] burst_size st h in
      let (emits, generated, counts) = untouched st st' emitted burst_size round in
      let (fs, st'', runs, numbered, len, counted) =
        generate-wires count burst_size st' h' (omega (arith, ap (λ s. s.valid) counts)) in
      let f = round.frame in
      (
        f ∷ fs,
        st'',
        generate_step count [] burst_size st st' st'' emitted (map (wire crc16 k) fs) run runs
            ∙ ap (λ l. ret (l ++ map (wire crc16 k) fs, st'')) emits,
        (
          generated,
          subst (λ n. Numbered laws n fs)
              (round.next ∙ ap (λ n. wrapping_add_u32 n 1) generated.sequence) numbered,
        ),
        ap suc len,
        counted
            ∙ ap {A = GenStats} {B = GenStats}
                (λ s. record s { valid = (s.valid + count) % 2 ^ 32 }) counts
            ∙ ap {A = ℕ} {B = GenStats} (λ n. record st.stats { valid = n }) (omega arith),
      )
