-- ===== src/Frame/Wire.antt =====
-- `Frame::encode_cobs`: the bytes on the wire.
use rust_telemetry_logger.Prelude.{
  ℕ, refl, subst, take, take-append, index, index_append, length-append, length-drop, ◌+◌, ◌≤◌, ◌≡◌,
  ◌∙◌, sym, arith, List, ◌∷◌, ◌++◌, some, none, ret, ltb, ge→ltb, ltb→ge, length, drop,
  if◌then◌else◌, slice_front, zeroed, length-zeroed, Bool-cases, inl, inr, All, All-append, IsU8,
}
use rust_telemetry_logger.Protocol.{max_payload, min_frame_len}
use rust_telemetry_logger.External.Crc.{Crc}
use rust_telemetry_logger.External.Cobs.{Cobs, CobsLaws, IsNonzeroU8}
use rust_telemetry_logger.External.Cobs.Delimiter.{written-encode, set_index-encode}
use rust_telemetry_logger.Frame.{
  Frame, IsFrame, raw_len, compute_crc, encode_raw, encode_cobs, max_cobs_frame_bytes,
}
use rust_telemetry_logger.Frame.Layout.{
  header_bytes, crc_list, raw_bytes, length-raw_bytes, encode_raw_layout,
}

module _ (crc16 : Crc) {cobs : Cobs} (k : CobsLaws cobs) where
  -- The COBS encoding of the raw frame; a zero byte ends it on the wire.
  abbrev pub body : Frame → List ℕ
  body f = k.encoded (raw_bytes crc16 f)

  -- Every body fits in a framer's buffer of 493 bytes.
  pub length-body : (f : Frame) → length f.payload ≤ max_payload → length (body f) ≤ 493
  unfolding raw_len
  length-body f fits = omega (
    arith,
    k.length-encoded (raw_bytes crc16 f),
    k.max_encoding_length_le (length (raw_bytes crc16 f)),
    length-raw_bytes crc16 f,
  )

  raw_frame :
      (f : Frame)
      → length f.payload ≤ max_payload
      → encode_raw crc16 f (zeroed (min_frame_len + max_payload))
        ≡ ret (
          some (raw_len f),
          raw_bytes crc16 f ++ drop (raw_len f) (zeroed (min_frame_len + max_payload)),
        )
  unfolding raw_len
  raw_frame f fits =
      encode_raw_layout crc16 f (zeroed (min_frame_len + max_payload))
      ∙ rw (length-zeroed, ge→ltb 491 (11 + length f.payload) (omega arith))

  write_body :
      (f : Frame) (buf : List ℕ)
      → length f.payload ≤ max_payload
      → cobs.max_encoding_length (raw_len f) + 1 ≤ length buf
      → encode_cobs crc16 cobs f buf
        ≡ ret (some (length (body f) + 1), body f ++ (0 ∷ drop (length (body f) + 1) buf))
  unfolding encode_cobs
  write_body f buf fits room =
      let raw = raw_bytes crc16 f in
      let e : length raw ≡ raw_len f = length-raw_bytes crc16 f in
      let room' : cobs.max_encoding_length (length raw) + 1 ≤ length buf = rw e room in
      rw (raw_frame f fits) (
        rw (ge→ltb _ _ room) (
          rw (slice_front raw (drop (raw_len f) (zeroed 491)) (raw_len f) (sym e)) (
            rw (set_index-encode k raw buf (omega arith) room')
              (rw (written-encode k raw buf room')))))

  -- A buffer that is too short for the longest encoding is refused and left alone; otherwise the
  -- body and the delimiter are written at its front, and the rest of it stays.
  pub encode_cobs_layout :
      (f : Frame) (buf : List ℕ)
      → length f.payload ≤ max_payload
      → encode_cobs crc16 cobs f buf ≡ (
          if ltb (length buf) (cobs.max_encoding_length (raw_len f) + 1)
          then ret (none, buf)
          else ret (some (length (body f) + 1), body f ++ (0 ∷ drop (length (body f) + 1) buf)))
  encode_cobs_layout f buf fits =
      elim (Bool-cases (ltb (length buf) (cobs.max_encoding_length (raw_len f) + 1))) [
        | inl short ↦ unfold encode_cobs in rw (raw_frame f fits) (rw short)
        | inr long ↦ write_body f buf fits (ltb→ge _ _ long) ∙ rw long
      ]

  -- A buffer of `MAX_COBS_FRAME_BYTES` is long enough for every frame.
  pub encode_cobs_fits :
      (f : Frame) (buf : List ℕ)
      → length f.payload ≤ max_payload
      → max_cobs_frame_bytes ≤ length buf
      → encode_cobs crc16 cobs f buf
        ≡ ret (some (length (body f) + 1), body f ++ (0 ∷ drop (length (body f) + 1) buf))
  unfolding raw_len
  encode_cobs_fits f buf fits room =
      write_body f buf fits (omega (arith, k.max_encoding_length_le (11 + length f.payload)))

  header_bytes-IsU8 : (f : Frame) → IsFrame f → All IsU8 (header_bytes f)
  header_bytes-IsU8 f h = omega arith

  compute_crc-IsU8 : (f : Frame) → All IsU8 (crc_list (compute_crc crc16 f))
  unfolding compute_crc
  compute_crc-IsU8 f = omega arith

  pub raw_bytes-IsU8 : (f : Frame) → IsFrame f → All IsU8 (raw_bytes crc16 f)
  raw_bytes-IsU8 f h =
      All-append IsU8 (header_bytes f) (f.payload ++ crc_list (compute_crc crc16 f))
        (header_bytes-IsU8 f h)
        (All-append IsU8 f.payload (crc_list (compute_crc crc16 f)) h.payload (compute_crc-IsU8 f))

  -- A buffer of `MAX_COBS_FRAME_BYTES` takes every well-formed frame, without a panic: at most
  -- `MAX_COBS_FRAME_BYTES` bytes are written, of which the last one is zero and no other, and the
  -- length of the buffer stays.
  pub encode_cobs_bounds :
      (f : Frame) (buf : List ℕ)
      → IsFrame f
      → length buf ≡ max_cobs_frame_bytes
      → (n : ℕ) × (buf' : List ℕ) × (encode_cobs crc16 cobs f buf ≡ ret (some (n + 1), buf'))
        × (n + 1 ≤ max_cobs_frame_bytes)
        × (length buf' ≡ length buf)
        × (index buf' n ≡ ret 0)
        × All IsNonzeroU8 (take n buf')
  encode_cobs_bounds f buf h size =
      let b = body f in
      let rest = drop (length b + 1) buf in
      let short = length-body f h.fits in
      (
        length b,
        b ++ (0 ∷ rest),
        encode_cobs_fits f buf h.fits (omega (arith, size)),
        omega (arith, short),
        omega (arith, short, size, length-append b (0 ∷ rest), length-drop (length b + 1) buf),
        index_append b rest 0 (length b) refl,
        subst (All IsNonzeroU8) (sym (take-append b (0 ∷ rest)))
            (k.encoded-IsNonzeroU8 (raw_bytes crc16 f) (raw_bytes-IsU8 f h)),
      )
