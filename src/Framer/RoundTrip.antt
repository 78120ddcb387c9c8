-- ===== src/Framer/RoundTrip.antt =====
-- Frames that `Frame::encode_cobs` wrote come out of the framer again, also behind garbage.
use rust_telemetry_logger.Prelude.{
  ℕ, zero, suc, ◌≤◌, ◌<◌, ◌≡◌, ◌∙◌, ap, refl, arith, some, List, [], ◌∷◌, ◌++◌, map, ret, length,
  append_assoc, replicate, All, is_empty-pos,
}
use rust_telemetry_logger.External.Heapless.{ByteVec, ByteVecLaws}
use rust_telemetry_logger.External.Cobs.{Cobs, CobsLaws}
use rust_telemetry_logger.External.Crc.{Crc}
use rust_telemetry_logger.Frame.{Frame, IsFrame, compute_crc, raw_len}
use rust_telemetry_logger.Frame.Layout.{raw_bytes, length-raw_bytes}
use rust_telemetry_logger.Frame.Wire.{body, raw_bytes-IsU8}
use rust_telemetry_logger.Framer.{
  Framer, collecting, FrameOutput, incomplete, complete, overflow, cobs_error, parse_error, process,
  feed_collecting, feed, feed_all,
}
use rust_telemetry_logger.Framer.Parse.{check_decoded-frame_bytes}
use rust_telemetry_logger.Framer.Invariant.{feed_collects}
use rust_telemetry_logger.Framer.Stream.{feed_all_cons, feed_all-append, feed_block}

-- The outputs that say something.
unfoldable pub events : List FrameOutput → List FrameOutput
events [] = []
events (incomplete ∷ os) = events os
events (complete f ∷ os) = complete f ∷ events os
events (overflow ∷ os) = overflow ∷ events os
events (cobs_error ∷ os) = cobs_error ∷ events os
events (parse_error ∷ os) = parse_error ∷ events os

events-incomplete :
    (n : ℕ) (os : List FrameOutput) → events (replicate n incomplete ++ os) ≡ events os
unfolding events
events-incomplete zero os = refl
events-incomplete (suc n) os = events-incomplete n os

module _ (crc16 : Crc) where
  -- The frame as it arrives: its CRC bytes are those that the encoder computed.
  abbrev pub stamped : Frame → Frame
  stamped f = record f { crc_bytes = compute_crc crc16 f }

  pub stamped-IsFrame : (f : Frame) → IsFrame f → IsFrame (stamped f)
  stamped-IsFrame f h = record {
    version = h.version;
    packet_type = h.packet_type;
    severity = h.severity;
    sequence = h.sequence;
    payload_len = h.payload_len;
    payload = h.payload;
    fits = h.fits;
  }

  module _ {cobs : Cobs} (k : CobsLaws cobs) where
    -- The frame on the wire.
    abbrev pub wire : Frame → List ℕ
    wire f = body crc16 k f ++ (0 ∷ [])

    unfoldable pub wires : List Frame → List ℕ
    wires [] = []
    wires (f ∷ fs) = wire f ++ wires fs

    module _ {v : ByteVec} (vl : ByteVecLaws v) (N : ℕ) where
      process-body :
          (fr : Framer) (f : Frame)
          → IsFrame f
          → fr.buf ≡ body crc16 k f
          → process v cobs fr
            ≡ ret (
              complete (stamped f),
              record fr { buf = raw_bytes crc16 f ++ k.tail (raw_bytes crc16 f) },
            )
      unfolding process raw_len
      process-body fr f h e =
          let raw = raw_bytes crc16 f in
          let decodes : cobs.decode_in_place fr.buf ≡ (some (length raw), raw ++ k.tail raw) =
            ap cobs.decode_in_place e ∙ k.decode-encoded raw (raw_bytes-IsU8 crc16 k f h) in
          rw (decodes, process)
            (rw decodes (
              rw (length-raw_bytes crc16 f) (
                rw (
                  check_decoded-frame_bytes vl cobs (stamped f) (k.tail raw)
                    (stamped-IsFrame f h)))))

      feed_delimiter :
          (fr : Framer) (f : Frame)
          → IsFrame f
          → fr.state ≡ collecting
          → fr.buf ≡ body crc16 k f
          → feed v cobs N fr 0 ≡ ret (complete (stamped f), record fr { buf = [] })
      unfolding feed_collecting
      feed_delimiter fr f h s e =
          let pos : 0 < length fr.buf = rw e (k.encoded_pos (raw_bytes crc16 f)) in
          feed_collects v cobs N fr 0 s ∙ rw (is_empty-pos fr.buf pos) (rw (process-body fr f h e))

      -- A frame on the wire comes out at its delimiter and not before.
      pub feed_all-wire :
          (fr : Framer) (f : Frame)
          → IsFrame f
          → fr.state ≡ collecting
          → fr.buf ≡ []
          → length (body crc16 k f) ≤ N
          → feed_all v cobs N fr (wire f)
            ≡ ret (
              replicate (length (body crc16 k f)) incomplete ++ (complete (stamped f) ∷ []),
              record fr { buf = [] },
            )
      feed_all-wire fr f h s e room =
          let b = body crc16 k f in
          let full : Framer = record fr { buf = b } in
          feed_all-append v cobs N fr full (record fr { buf = [] }) b (0 ∷ [])
            (replicate (length b) incomplete) (complete (stamped f) ∷ [])
            (feed_block vl cobs N fr b s
                (k.encoded-IsNonzeroU8 (raw_bytes crc16 f) (raw_bytes-IsU8 crc16 k f h))
                (rw e (omega arith))
              ∙ ap (λ l. ret (replicate (length b) incomplete, record fr { buf = l ++ b })) e)
            (feed_all_cons v cobs N full (record fr { buf = [] }) (record fr { buf = [] }) 0 []
              (complete (stamped f)) [] (feed_delimiter full f h s refl) (unfold feed_all in refl))

      -- Well-formed frames whose encodings fit in the buffer, one behind the other on the wire,
      -- come out in order, each with the CRC bytes that the encoder computed, and nothing else
      -- does: no error and no other frame.
      pub feed_all-wires :
          (fs : List Frame) (fr : Framer)
          → All (λ f. IsFrame f × (length (body crc16 k f) ≤ N)) fs
          → fr.state ≡ collecting
          → fr.buf ≡ []
          → (os : List FrameOutput) × (feed_all v cobs N fr (wires fs)
              ≡ ret (os, record fr { buf = [] }))
            × (events os ≡ map (λ f. complete (stamped f)) fs)
      unfolding feed_all wires events
      feed_all-wires [] fr h s e = ([], ap (λ l. ret ([], record fr { buf = l })) e, refl)
      feed_all-wires (f ∷ fs) fr ((h, room), hs) s e =
          let quiet = replicate (length (body crc16 k f)) incomplete in
          let (os, run, seen) = feed_all-wires fs (record fr { buf = [] }) hs s refl in
          (
            (quiet ++ (complete (stamped f) ∷ [])) ++ os,
            feed_all-append v cobs N fr (record fr { buf = [] }) (record fr { buf = [] }) (wire f)
                (wires fs) (quiet ++ (complete (stamped f) ∷ [])) os (feed_all-wire fr f h s e room)
                run,
            rw (append_assoc quiet (complete (stamped f) ∷ []) os) (
                events-incomplete (length (body crc16 k f)) (complete (stamped f) ∷ os)
                ∙ ap (λ l. complete (stamped f) ∷ l) seen),
          )
