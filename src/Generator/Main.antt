-- ===== src/Generator/Main.antt =====
-- tools/packet-generator/src/main.rs: `main`.
use rust_telemetry_logger.Prelude.{
  ℕ, List, [], ◌∷◌, ◌++◌, Run, ret, ◌>>=◌, Result, ok, err, codes, decimal, zeroed,
}
use rust_telemetry_logger.External.Cobs.{Cobs}
use rust_telemetry_logger.External.Crc.{Crc}
use rust_telemetry_logger.External.Heapless.{ByteVec}
use rust_telemetry_logger.External.Sinks.{Sinks}
use rust_telemetry_logger.Frame.{max_cobs_frame_bytes}
use rust_telemetry_logger.Generator.{CorruptMode, GenStats, GenState, Rng, generate}
use rust_telemetry_logger.Generator.Modes.{parse_modes}
use rust_telemetry_logger.Generator.Sink.{Sink, from_spec, write_all, flush}

-- `Args`, without the seed and the rate, which stand in the random numbers.
pub record Args : Type 0 where
  pub count : ℕ
  pub sink : List ℕ
  pub corrupt : List (List ℕ)
  pub burst_size : ℕ

abbrev pub no_stats : GenStats
no_stats = record { valid = 0; bad_crc = 0; truncated = 0; seq_gap = 0; burst_extra = 0 }

-- The variables in front of the loop, for the generator of random numbers of the seed.
abbrev pub start : {G : Type 0} → G → GenState G
start seeded = record { rng = seeded; seq = 0; stats = no_stats; buf = zeroed max_cobs_frame_bytes }

unfoldable pub summary : ℕ → GenStats → List ℕ
summary count s =
    codes "generated "
    ++ (decimal count
        ++ (codes " frames: "
            ++ (decimal s.valid
                ++ (codes " valid, "
                    ++ (decimal s.bad_crc
                        ++ (codes " bad-crc, "
                            ++ (decimal s.truncated
                                ++ (codes " truncated, "
                                    ++ (decimal s.seq_gap
                                        ++ (codes " seq-gaps, "
                                            ++ (decimal s.burst_extra
                                                ++ codes " burst-extra")))))))))))

module _ {W F U E : Type 0} (sinks : Sinks W F U E) where
  -- Every chunk by `emit`; the first write that fails ends the program. That the frames behind it
  -- are still generated in this model does not show.
  unfoldable pub emit_all : W → Sink F U → List (List ℕ) → Result (Unit {0}) E × W
  emit_all w sink [] = (ok tt, w)
  emit_all w sink (chunk ∷ chunks) =
      let (written, w') = write_all sinks w sink chunk in
      elim written [ err e ↦ (err e, w') | ok _ ↦ emit_all w' sink chunks ]

  -- The flush and the summary behind the loop: the exit status and the summary.
  unfoldable pub finish : W → Sink F U → List ℕ → ℕ × List (List ℕ) × W
  finish w sink text =
      let (flushed, w') = flush sinks w sink in
      elim flushed [ err e ↦ (1, [], w') | ok _ ↦ (0, text ∷ [], w') ]

  module _ {G : Type 0} (rng : Rng G) (v : ByteVec) (crc16 : Crc) (cobs : Cobs) where
    -- From the sink on.
    unfoldable pub run_sink :
        Args → List CorruptMode → G → W → Sink F U → Run (ℕ × List (List ℕ) × W)
    run_sink args modes seeded w sink =
        generate rng v crc16 cobs args.count modes args.burst_size (start seeded) >>= λ generated.
        let (written, w') = emit_all w sink generated.0 in
        elim written [
          | err e ↦ ret (1, [], w')
          | ok _ ↦ ret (finish w' sink (summary args.count generated.1.stats))
        ]

    -- The exit status, the notes on the standard error, and the world afterwards.
    unfoldable pub main : Args → G → W → Run (ℕ × List (List ℕ) × W)
    main args seeded w = elim (parse_modes args.corrupt) [
      | err text ↦ ret (1, [], w)
      | ok modes ↦
          let (opened, w') = from_spec sinks w args.sink in
          elim opened [ err e ↦ ret (1, [], w') | ok sink ↦ run_sink args modes seeded w' sink ]
    ]
