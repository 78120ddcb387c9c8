-- ===== src/Framer/Resync.antt =====
-- A delimiter brings the framer back to the start of a frame, whatever came before.
use rust_telemetry_logger.Prelude.{
  ℕ, suc, ◌≤◌, ◌≡◌, ◌∙◌, ap, sym, refl, arith, List, [], ◌∷◌, ◌++◌, ret, length, append_assoc,
  replicate, All, IsU8,
}
use rust_telemetry_logger.External.Heapless.{ByteVec, ByteVecLaws}
use rust_telemetry_logger.External.Cobs.{Cobs, CobsLaws}
use rust_telemetry_logger.External.Crc.{Crc}
use rust_telemetry_logger.Frame.{Frame, IsFrame}
use rust_telemetry_logger.Frame.Wire.{body}
use rust_telemetry_logger.Framer.{Framer, collecting, FrameOutput, incomplete, complete, feed_all}
use rust_telemetry_logger.Framer.Invariant.{IsFramer, IsOutput, feed_total}
use rust_telemetry_logger.Framer.Stream.{feed_all_cons, feed_all-append}
use rust_telemetry_logger.Framer.RoundTrip.{stamped, wire, feed_all-wire}

module _ {v : ByteVec} (vl : ByteVecLaws v) {cobs : Cobs} (k : CobsLaws cobs) (N : ℕ) where
  -- From a framer that satisfies its invariant any bytes at all are taken without a panic, with one
  -- output for each byte; the framer keeps its invariant and every complete frame is well formed.
  pub feed_all_total :
      (bytes : List ℕ) (f : Framer)
      → IsFramer N f
      → All IsU8 bytes
      → (os : List FrameOutput) × (f' : Framer) × (feed_all v cobs N f bytes ≡ ret (os, f'))
        × (length os ≡ length bytes)
        × All IsOutput os
        × IsFramer N f'
  feed_all_total [] f h b = ([], f, unfold feed_all in refl, refl, tt, h)
  feed_all_total (x ∷ xs) f h b =
      let (o, g, step, good, hg, _) = feed_total vl k N f x h b.0 in
      let (os, f', run, len, goods, h') = feed_all_total xs g hg b.1 in
      (o ∷ os, f', feed_all_cons v cobs N f g f' x xs o os step run, ap suc len, (good, goods), h')

  -- From a framer that satisfies its invariant, whatever bytes come first, a well-formed frame whose
  -- encoding fits in the buffer comes out whole behind a delimiter, as the last output, and the
  -- framer then waits for the next frame with an empty buffer.
  pub resync :
      (crc16 : Crc) (garbage : List ℕ) (f : Frame) (fr : Framer)
      → IsFramer N fr
      → All IsU8 garbage
      → IsFrame f
      → length (body crc16 k f) ≤ N
      → (os : List FrameOutput) × (fr' : Framer) × (feed_all v cobs N fr
            (garbage ++ (0 ∷ wire crc16 k f))
          ≡ ret (os ++ (complete (stamped crc16 f) ∷ []), fr'))
        × (fr'.state ≡ collecting)
        × (fr'.buf ≡ [])
  resync crc16 garbage f fr h b hf room =
      let (os, g, run, _, _, hg) = feed_all_total garbage fr h b in
      let (o, g', step, _, hg', clean) = feed_total vl k N g 0 hg (omega arith) in
      let (collects, empty) = clean refl in
      let quiet = replicate (length (body crc16 k f)) incomplete in
      let last = complete (stamped crc16 f) ∷ [] in
      let done : Framer = record g' { buf = [] } in
      (
        os ++ (o ∷ quiet),
        done,
        feed_all-append v cobs N fr g done garbage (0 ∷ wire crc16 k f) os (o ∷ (quiet ++ last)) run
              (feed_all_cons v cobs N g g' done 0 (wire crc16 k f) o (quiet ++ last) step
                (feed_all-wire crc16 k vl N g' f hf collects empty room))
            ∙ ap (λ l. ret (l, done)) (sym (append_assoc os (o ∷ quiet) last)),
        collects,
        refl,
      )
