-- ===== src/Generator/Sent.antt =====
-- `main`: what the generator sends.
use mathlib.Core.List.{flatten}
use rust_telemetry_logger.Prelude.{
  ℕ, ◌≡◌, ◌⊎◌, ◌∙◌, ap, refl, sym, arith, List, [], ◌∷◌, ◌++◌, append_assoc, append-nil, ret, ◌>>=◌,
  All, ok, err, Result-cases, inl, inr, flatten-append, length-zeroed, codes, decimal,
}
use rust_telemetry_logger.External.Cobs.{Cobs, CobsLaws}
use rust_telemetry_logger.External.Crc.{Crc}
use rust_telemetry_logger.External.Heapless.{ByteVec, ByteVecLaws}
use rust_telemetry_logger.External.Sinks.{Sinks, SinksLaws}
use rust_telemetry_logger.Generator.{CorruptMode, GenStats, GenState, Rng, generate}
use rust_telemetry_logger.Generator.Frames.{RngLaws}
use rust_telemetry_logger.Generator.Main.{Args, start, summary, emit_all, finish, run_sink, main}
use rust_telemetry_logger.Generator.Modes.{parse_modes}
use rust_telemetry_logger.Generator.Rounds.{IsGenState}
use rust_telemetry_logger.Generator.Sink.{
  Sink, SinkError, stdout, file, tcp, udp, from_spec, write_all, flush,
}
use rust_telemetry_logger.Generator.Stream.{IsEmitted, generate-IsEmitted}

start-IsGenState : {G : Type 0} → (seeded : G) → IsGenState (start seeded)
start-IsGenState seeded = record { seq = omega arith; buf = length-zeroed 494 }

module _ {W F U E : Type 0} {sinks : Sinks W F U E} (sl : SinksLaws sinks) where
  -- All the bytes that a sink has got.
  abbrev pub sent : W → Sink F U → List ℕ
  sent w (stdout f) = sl.bytes w f
  sent w (file f) = sl.bytes w f
  sent w (tcp f) = sl.bytes w f
  sent w (udp socket addr) = flatten (sl.datagrams w socket)

  sent-write_all :
      (w : W) (sink : Sink F U) (buf : List ℕ)
      → (write_all sinks w sink buf).0 ≡ ok tt
      → sent (write_all sinks w sink buf).1 sink ≡ sent w sink ++ buf
  unfolding write_all flatten
  sent-write_all w (stdout f) buf e = sl.write_all-bytes w f buf e
  sent-write_all w (file f) buf e = sl.write_all-bytes w f buf e
  sent-write_all w (tcp f) buf e = sl.write_all-bytes w f buf e
  sent-write_all w (udp socket addr) buf e =
      elim (Result-cases (sinks.send_to w socket buf addr).0) [
        | inr (_, fails) ↦ cc (rw (fails, write_all) at e)
        | inl (n, sends) ↦
            rw (sends, write_all)
              (ap flatten (sl.send_to-datagrams w socket buf addr n sends)
                ∙ flatten-append (sl.datagrams w socket) (buf ∷ [])
                ∙ ap (λ l. flatten (sl.datagrams w socket) ++ l) (append-nil buf))
      ]

  sent-flush : (w : W) (sink : Sink F U) → sent (flush sinks w sink).1 sink ≡ sent w sink
  unfolding flush
  sent-flush w (stdout f) = sl.flush-bytes w f
  sent-flush w (file f) = sl.flush-bytes w f
  sent-flush w (tcp f) = sl.flush-bytes w f
  sent-flush w (udp socket addr) = refl

  -- The write of the first chunk that fails, behind chunks that the sink has got.
  pub record StopsAt (sink : Sink F U) (opened : W) (chunks : List (List ℕ)) (e : E) (w' : W)
      : Type 0 where
    pub before : List (List ℕ)
    pub chunk : List ℕ
    pub after : List (List ℕ)
    pub split : chunks ≡ before ++ (chunk ∷ after)
    pub world : W
    pub arrived : sent world sink ≡ sent opened sink ++ flatten before
    pub fails : write_all sinks world sink chunk ≡ (err e, w')

  -- A write that fails ends the run; otherwise every chunk is sent, in order.
  emit_all_cases :
      (chunks : List (List ℕ)) (w : W) (sink : Sink F U)
      → ((w' : W) × (emit_all sinks w sink chunks ≡ (ok tt, w'))
          × (sent w' sink ≡ sent w sink ++ flatten chunks))
        ⊎ ((e : E) × (w' : W) × (emit_all sinks w sink chunks ≡ (err e, w'))
            × StopsAt sink w chunks e w')
  unfolding emit_all flatten
  emit_all_cases [] w sink = inl (w, refl, sym (append-nil (sent w sink)))
  emit_all_cases (chunk ∷ chunks) w sink =
      let w₁ = (write_all sinks w sink chunk).1 in
      elim (Result-cases (write_all sinks w sink chunk).0) [
        | inr (e, fails) ↦ inr (
          e,
          w₁,
          rw (fails, emit_all) refl,
          record {
            before = [];
            chunk = chunk;
            after = chunks;
            split = refl;
            world = w;
            arrived = sym (append-nil (sent w sink));
            fails = ap (λ r. (r, w₁)) fails;
          },
        )
        | inl (_, wrote) ↦ elim (emit_all_cases chunks w₁ sink) [
          | inr (e, w', rest, stops) ↦ inr (
            e,
            w',
            rw (wrote, emit_all) rest,
            record {
              before = chunk ∷ stops.before;
              chunk = stops.chunk;
              after = stops.after;
              split = ap (λ l. chunk ∷ l) stops.split;
              world = stops.world;
              arrived =
                  stops.arrived
                  ∙ ap (λ l. l ++ flatten stops.before) (sent-write_all w sink chunk wrote)
                  ∙ append_assoc (sent w sink) chunk (flatten stops.before);
              fails = stops.fails;
            },
          )
          | inl (w', rest, all) ↦ inl (
            w',
            rw (wrote, emit_all) rest,
            all
                ∙ ap (λ l. l ++ flatten chunks) (sent-write_all w sink chunk wrote)
                ∙ append_assoc (sent w sink) chunk (flatten chunks),
          )
        ]
      ]

module _ {W F U E G : Type 0} {sinks : Sinks W F U E} (sl : SinksLaws sinks) {rng : Rng G}
    (laws : RngLaws rng) {v : ByteVec} (vl : ByteVecLaws v) (crc16 : Crc) {cobs : Cobs}
    (k : CobsLaws cobs) where
  -- The generator parsed its modes, opened its sink, and generated these chunks and statistics.
  pub record Generates (args : Args) (seeded : G) (w : W) (sink : Sink F U) (opened : W)
      (chunks : List (List ℕ)) (stats : GenStats) : Type 0 where
    pub modes : List CorruptMode
    pub parses : parse_modes args.corrupt ≡ ok modes
    pub opens : from_spec sinks w args.sink ≡ (ok sink, opened)
    pub state : GenState G
    pub generates :
        generate rng v crc16 cobs args.count modes args.burst_size (start seeded)
        ≡ ret (chunks, state)
    pub counts : state.stats ≡ stats
    pub emitted : All (IsEmitted laws vl crc16 k) chunks

  -- What is printed: the number of frames and the five counters.
  abbrev texts : ℕ → GenStats → List (List ℕ)
  texts count s =
      codes "generated "
      ∷ decimal count
      ∷ codes " frames: "
      ∷ decimal s.valid
      ∷ codes " valid, "
      ∷ decimal s.bad_crc
      ∷ codes " bad-crc, "
      ∷ decimal s.truncated
      ∷ codes " truncated, "
      ∷ decimal s.seq_gap
      ∷ codes " seq-gaps, "
      ∷ decimal s.burst_extra
      ∷ codes " burst-extra"
      ∷ []

  -- The run that sends everything.
  pub data Sends (args : Args) (seeded : G) (w : W) (lines : List (List ℕ)) (w' : W) : Type 0 where
    sends :
        (sink : Sink F U) (opened : W) (chunks : List (List ℕ)) (stats : GenStats)
        → Generates args seeded w sink opened chunks stats
        → sent sl w' sink ≡ sent sl opened sink ++ flatten chunks
        → lines ≡ flatten (texts args.count stats) ∷ []
        → Sends args seeded w lines w'

  -- The ways to fail: an unknown mode, a sink that does not open, a write, with all the chunks in
  -- front of it sent, or the flush behind all of them.
  pub data Fails (args : Args) (seeded : G) (w : W) : W → Type 0 where
    no_modes : (text : List ℕ) → parse_modes args.corrupt ≡ err text → Fails args seeded w w
    no_sink :
        (modes : List CorruptMode) (e : SinkError E) (w' : W)
        → parse_modes args.corrupt ≡ ok modes
        → from_spec sinks w args.sink ≡ (err e, w')
        → Fails args seeded w w'
    no_write :
        (sink : Sink F U) (opened : W) (chunks : List (List ℕ)) (stats : GenStats) (e : E) (w' : W)
        → Generates args seeded w sink opened chunks stats
        → StopsAt sl sink opened chunks e w'
        → Fails args seeded w w'
    no_flush :
        (sink : Sink F U) (opened : W) (chunks : List (List ℕ)) (stats : GenStats) (w₁ : W) (e : E)
        (w' : W)
        → Generates args seeded w sink opened chunks stats
        → sent sl w₁ sink ≡ sent sl opened sink ++ flatten chunks
        → flush sinks w₁ sink ≡ (err e, w')
        → Fails args seeded w w'

  -- How a run ends: with status 1 and no summary, or with status 0 when everything is sent.
  abbrev pub Ends : Args → G → W → ℕ → List (List ℕ) → W → Type 0
  Ends args seeded w status lines w' =
      ((status ≡ 1) × (lines ≡ []) × Fails args seeded w w')
      ⊎ ((status ≡ 0) × Sends args seeded w lines w')

  summary-texts : (count : ℕ) (s : GenStats) → summary count s ≡ flatten (texts count s)
  unfolding summary flatten
  summary-texts count s = rw (append-nil (codes " burst-extra")) refl

  finish_cases :
      (args : Args) (seeded : G) (w w₁ w₂ : W) (sink : Sink F U) (chunks : List (List ℕ))
      (stats : GenStats)
      → Generates args seeded w sink w₁ chunks stats
      → sent sl w₂ sink ≡ sent sl w₁ sink ++ flatten chunks
      → let r = finish sinks w₂ sink (summary args.count stats) in Ends args seeded w r.0 r.1 r.2
  unfolding finish
  finish_cases args seeded w w₁ w₂ sink chunks stats generated arrived =
      let w₃ = (flush sinks w₂ sink).1 in
      elim (Result-cases (flush sinks w₂ sink).0) [
        | inr (e, fails) ↦
            rw (fails, finish)
              (inl (
                refl,
                refl,
                Fails.no_flush sink w₁ chunks stats w₂ e w₃ generated arrived
                    (ap (λ r. (r, w₃)) fails),
              ))
        | inl (_, done) ↦
            rw (done, finish)
              (inr (
                refl,
                Sends.sends sink w₁ chunks stats generated (sent-flush sl w₂ sink ∙ arrived)
                    (ap (λ text. text ∷ []) (summary-texts args.count stats)),
              ))
      ]

  run_sink_cases :
      (args : Args) (modes : List CorruptMode) (seeded : G) (w w₁ : W) (sink : Sink F U)
      → parse_modes args.corrupt ≡ ok modes
      → from_spec sinks w args.sink ≡ (ok sink, w₁)
      → (status : ℕ) × (lines : List (List ℕ)) × (w' : W) × (run_sink sinks rng v crc16 cobs args
            modes seeded w₁ sink
          ≡ ret (status, lines, w'))
        × Ends args seeded w status lines w'
  unfolding run_sink
  run_sink_cases args modes seeded w w₁ sink parses opens =
      let (chunks, st, run, all, _) =
        generate-IsEmitted laws vl crc16 k args.count modes args.burst_size (start seeded)
          (start-IsGenState seeded) in
      let generated : Generates args seeded w sink w₁ chunks st.stats = record {
        modes = modes;
        parses = parses;
        opens = opens;
        state = st;
        generates = run;
        counts = refl;
        emitted = all;
      } in
      elim (emit_all_cases sl chunks w₁ sink) [
        | inr (e, w₂, fails, stops) ↦ (
          1,
          [],
          w₂,
          rw (run, ◌>>=◌) (rw (ap (λ t. t.0) fails) (rw (ap (λ t. t.1) fails) refl)),
          inl (refl, refl, Fails.no_write sink w₁ chunks st.stats e w₂ generated stops),
        )
        | inl (w₂, done, arrived) ↦
            let r = finish sinks w₂ sink (summary args.count st.stats) in
            (
              r.0,
              r.1,
              r.2,
              rw (run, ◌>>=◌) (rw (ap (λ t. t.0) done) (rw (ap (λ t. t.1) done) refl)),
              finish_cases args seeded w w₁ w₂ sink chunks st.stats generated arrived,
            )
      ]

  -- Whatever its arguments, the random numbers and the failures on the way are, the generator ends
  -- without a panic. With status 0 it has parsed its modes and opened its sink, which then has got,
  -- whole and in order, the chunks that `generate` emits from the start, each a frame on the wire,
  -- whole, with one byte flipped, or cut short and delimited; and it prints the number of frames and
  -- the five counters of `generate`, alone. With status 1 it prints no summary, and a mode was
  -- unknown, the sink did not open, a write failed, behind the chunks that were sent, or the flush
  -- behind all of them failed.
  pub main_cases :
      (args : Args) (seeded : G) (w : W)
      → (status : ℕ) × (lines : List (List ℕ)) × (w' : W) × (main sinks rng v crc16 cobs args seeded
            w
          ≡ ret (status, lines, w'))
        × Ends args seeded w status lines w'
  unfolding main
  main_cases args seeded w = elim (Result-cases (parse_modes args.corrupt)) [
    | inr (text, unknown) ↦
        (1, [], w, rw (unknown, main) refl, inl (refl, refl, Fails.no_modes text unknown))
    | inl (modes, parses) ↦
        let w₁ = (from_spec sinks w args.sink).1 in
        elim (Result-cases (from_spec sinks w args.sink).0) [
          | inr (e, fails) ↦ (
            1,
            [],
            w₁,
            rw (parses, main) (rw fails refl),
            inl (refl, refl, Fails.no_sink modes e w₁ parses (ap (λ r. (r, w₁)) fails)),
          )
          | inl (sink, opens) ↦
              let (status, lines, w', run, ending) =
                run_sink_cases args modes seeded w w₁ sink parses (ap (λ r. (r, w₁)) opens) in
              (status, lines, w', rw (parses, main) (rw opens run), ending)
        ]
  ]
