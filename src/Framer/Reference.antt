-- ===== src/Framer/Reference.antt =====
-- What the framer answers to any stream of delimited chunks.
use rust_telemetry_logger.Prelude.{ℕ, ◌≡◌, ◌∙◌, ap, refl, List, [], ◌∷◌, ◌++◌, ret, All}
use rust_telemetry_logger.External.Cobs.{Cobs, CobsLaws, IsNonzeroU8}
use rust_telemetry_logger.External.Heapless.{ByteVec, ByteVecLaws}
use rust_telemetry_logger.Framer.{
  Framer, collecting, FrameOutput, incomplete, complete, overflow, cobs_error, parse_error,
  feed_all,
}
use rust_telemetry_logger.Framer.Description.{
  delimited, outputs, Answers, end, next, resyncs, IsBetween,
}
use rust_telemetry_logger.Framer.Chunks.{feed_chunk}
use rust_telemetry_logger.Framer.Stream.{feed_all-append}

module _ {v : ByteVec} (vl : ByteVecLaws v) {cobs : Cobs} (k : CobsLaws cobs) (N : ℕ) where
  resyncs_cons :
      (count : ℕ) (o : FrameOutput) (answers : List FrameOutput)
      → resyncs (resyncs count (o ∷ [])) answers ≡ resyncs count (o ∷ answers)
  unfolding resyncs
  resyncs_cons count incomplete answers = refl
  resyncs_cons count (complete f) answers = refl
  resyncs_cons count overflow answers = refl
  resyncs_cons count cobs_error answers = refl
  resyncs_cons count parse_error answers = refl

  -- From between chunks, the framer takes any stream of chunks without zero bytes, each with a
  -- delimiter behind it, without a panic, and its outputs are the answers of the description, in
  -- order, each at its place: nothing to an empty chunk; `Overflow` to one longer than the buffer, at
  -- the first byte that does not fit; and, at the delimiter, `CobsError` to one that is not COBS, the
  -- frame to one that decodes to the bytes of a well-formed frame, and `ParseError` to one that
  -- decodes to no frame. It is then between chunks, and `resync_count` has grown by the overflows
  -- and COBS errors, saturating.
  pub feed_all-delimited :
      (chunks : List (List ℕ)) (f : Framer)
      → f.state ≡ collecting
      → f.buf ≡ []
      → All (All IsNonzeroU8) chunks
      → (answers os : List FrameOutput) × (f' : Framer) × (feed_all v cobs N f (delimited chunks)
          ≡ ret (os, f'))
        × Answers cobs N chunks answers os
        × IsBetween f.resync_count answers f'
  unfolding delimited resyncs
  feed_all-delimited [] f s e h =
      ([], [], f, unfold feed_all in refl, end, record { collects = s; empty = e; counted = refl })
  feed_all-delimited (c ∷ chunks) f s e (h, hs) =
      let (o, g, run, answer, between) = feed_chunk vl k N f c s e h in
      let (answers, os, f', runs, rest, last) =
        feed_all-delimited chunks g between.collects between.empty hs in
      (
        o ∷ answers,
        outputs cobs N c o ++ os,
        f',
        feed_all-append v cobs N f g f' (c ++ (0 ∷ [])) (delimited chunks) (outputs cobs N c o) os
            run runs,
        next c chunks o answers os answer rest,
        record {
          collects = last.collects;
          empty = last.empty;
          counted =
              last.counted
              ∙ ap (λ n. resyncs n answers) between.counted
              ∙ resyncs_cons f.resync_count o answers;
        },
      )
