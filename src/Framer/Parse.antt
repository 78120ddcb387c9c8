-- ===== src/Framer/Parse.antt =====
-- What `Framer::process` makes of decoded bytes.
use rust_telemetry_logger.Prelude.{
  ℕ, ◌+◌, ◌≡◌, ◌∙◌, ap, refl, arith, List, [], ◌∷◌, ◌++◌, some, ret, ge→ltb, le→leb, eq→==, length,
  index, u16_of, u16_of-le16, u32_of-le32, append_assoc, slice_between, index_append,
  index_append_second, ◌%◌, ◌/◌,
}
use rust_telemetry_logger.Protocol.{max_payload}
use rust_telemetry_logger.External.Heapless.{ByteVec, ByteVecLaws}
use rust_telemetry_logger.External.Cobs.{Cobs}
use rust_telemetry_logger.Frame.{Frame, IsFrame, raw_len}
use rust_telemetry_logger.Frame.Layout.{header_bytes, crc_list}
use rust_telemetry_logger.Framer.{complete, check_decoded, read_frame}

-- The bytes of a frame as it stands, its stored CRC included.
abbrev pub frame_bytes : Frame → List ℕ
frame_bytes f = header_bytes f ++ (f.payload ++ crc_list f.crc_bytes)

-- The same with `tail` behind it.
abbrev pub framed : Frame → List ℕ → List ℕ
framed f tail = header_bytes f ++ (f.payload ++ (f.crc_bytes.0 ∷ (f.crc_bytes.1 ∷ tail)))

pub frame_bytes-append : (f : Frame) (tail : List ℕ) → frame_bytes f ++ tail ≡ framed f tail
frame_bytes-append f tail =
    ap (λ l. header_bytes f ++ l) (append_assoc f.payload (crc_list f.crc_bytes) tail)

module _ {v : ByteVec} (vl : ByteVecLaws v) (cobs : Cobs) where
  extend_payload :
      (f : Frame) → IsFrame f → v.extend_from_slice max_payload [] f.payload ≡ some f.payload
  extend_payload f h =
      vl.extend_lem max_payload [] f.payload
      ∙ rw (le→leb (0 + length f.payload) max_payload (omega arith))

  read_framed :
      (f : Frame) (tail : List ℕ)
      → IsFrame f
      → read_frame v cobs (framed f tail) f.header.payload_len ≡ ret (complete f)
  unfolding read_frame
  read_framed f tail h =
      let front = header_bytes f ++ f.payload in
      let n = 9 + f.header.payload_len in
      rw
        (slice_between (header_bytes f) f.payload (f.crc_bytes.0 ∷ (f.crc_bytes.1 ∷ tail)) 9 n refl
          (omega arith))
        (rw (extend_payload f h) (
          rw (index_append front (f.crc_bytes.1 ∷ tail) f.crc_bytes.0 n (omega arith)) (
            rw (index_append_second front tail f.crc_bytes.0 f.crc_bytes.1 (n + 1) (omega arith)) (
              unfold index in
              ap (λ s. ret (complete (record f { header = record f.header { sequence = s } })))
                (u32_of-le32 f.header.sequence h.sequence)))))

  -- The bytes of a frame, with anything behind them, are read as that frame.
  pub check_decoded-frame_bytes :
      (f : Frame) (tail : List ℕ)
      → IsFrame f
      → check_decoded v cobs (frame_bytes f ++ tail) (raw_len f) ≡ ret (complete f)
  unfolding check_decoded raw_len index
  check_decoded-frame_bytes f tail h =
      let e : u16_of (f.header.payload_len % 256) (f.header.payload_len / 256 % 256)
          ≡ f.header.payload_len =
        u16_of-le16 f.header.payload_len (omega arith) in
      rw (frame_bytes-append f tail) (
        rw (ge→ltb (11 + length f.payload) 11 (omega arith)) (
          rw e (
            rw (ge→ltb max_payload f.header.payload_len (omega arith)) (
              rw (eq→== (11 + length f.payload) (9 + f.header.payload_len + 2) (omega arith))
                (read_framed f tail h)))))
