-- ===== src/Frame/Layout.antt =====
-- The bytes that the encoders of frame.rs write.
use rust_telemetry_logger.Prelude.{
  ℕ, ◌+◌, ◌≤◌, ◌≡◌, refl, ◌∙◌, arith, List, [], ◌∷◌, ◌++◌, some, none, ret, ltb, ge→ltb, ltb→ge,
  length, drop, length-append, if◌then◌else◌, le16, le32, set_index_front, copy_at_front,
  append_assoc, Bool-cases, inl, inr,
}
use rust_telemetry_logger.Protocol.{header_len, min_frame_len}
use rust_telemetry_logger.External.Crc.{Crc}
use rust_telemetry_logger.Frame.{Frame, raw_len, compute_crc, encode_raw}

-- The nine header bytes in wire order.
abbrev pub header_bytes : Frame → List ℕ
header_bytes f =
    f.header.version
    ∷ (f.header.packet_type
        ∷ (f.header.severity ∷ (le32 f.header.sequence ++ le16 f.header.payload_len)))

abbrev pub crc_list : ℕ × ℕ → List ℕ
crc_list crc = crc.0 ∷ crc.1 ∷ []

module _ (crc16 : Crc) where
  abbrev pub raw_bytes : Frame → List ℕ
  raw_bytes f = header_bytes f ++ (f.payload ++ crc_list (compute_crc crc16 f))

  encode_raw_fits :
      (f : Frame) (buf : List ℕ)
      → raw_len f ≤ length buf
      → encode_raw crc16 f buf ≡ ret (some (raw_len f), raw_bytes f ++ drop (raw_len f) buf)
  unfolding encode_raw raw_len
  encode_raw_fits f buf h =
      let h₁ : List ℕ = f.header.version ∷ [] in
      let h₂ : List ℕ = h₁ ++ (f.header.packet_type ∷ []) in
      let h₃ : List ℕ = h₂ ++ (f.header.severity ∷ []) in
      let h₇ : List ℕ = h₃ ++ le32 f.header.sequence in
      let crc = crc_list (compute_crc crc16 f) in
      let payload_end = header_len + length f.payload in
      let e : payload_end + 2 ≡ raw_len f = omega arith in
      rw (ge→ltb (length buf) (min_frame_len + length f.payload) h) (
        rw (set_index_front [] buf 0 f.header.version refl (omega arith)) (
          rw (set_index_front h₁ buf 1 f.header.packet_type refl (omega arith)) (
            rw (set_index_front h₂ buf 2 f.header.severity refl (omega arith)) (
              rw
                (copy_at_front h₃ buf (le32 f.header.sequence) 3 7 refl (omega arith) (omega arith))
                (rw
                  (copy_at_front h₇ buf (le16 f.header.payload_len) 7 9 refl (omega arith)
                    (omega arith))
                  (rw
                    (copy_at_front (header_bytes f) buf f.payload 9 payload_end refl refl
                      (omega arith))
                    (rw
                      (copy_at_front (header_bytes f ++ f.payload) buf crc payload_end
                        (payload_end + 2) (omega arith) refl (omega arith))
                      (rw (append_assoc f.payload crc (drop (raw_len f) buf), e)))))))))

  pub length-raw_bytes : (f : Frame) → length (raw_bytes f) ≡ raw_len f
  unfolding raw_len
  length-raw_bytes f = omega (arith, length-append f.payload (crc_list (compute_crc crc16 f)))

  -- A buffer that is too short is refused and left alone; otherwise the raw bytes are written at
  -- its front, and the rest of it stays.
  pub encode_raw_layout :
      (f : Frame) (buf : List ℕ)
      → encode_raw crc16 f buf ≡ (
          if ltb (length buf) (raw_len f)
          then ret (none, buf)
          else ret (some (raw_len f), raw_bytes f ++ drop (raw_len f) buf))
  encode_raw_layout f buf = elim (Bool-cases (ltb (length buf) (raw_len f))) [
    | inl short ↦ unfold encode_raw in rw short
    | inr fits ↦ encode_raw_fits f buf (ltb→ge _ _ fits) ∙ rw fits
  ]
