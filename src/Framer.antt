-- ===== src/Framer.antt =====
-- crates/telemetry-core/src/framer.rs: bytes to frames, one byte at a time.
pub mod Parse
pub mod Description
pub mod Chunks
pub mod Reference
pub mod Resync
pub mod RoundTrip
pub mod Stream
pub mod Invariant
pub mod Decoded
use rust_telemetry_logger.Prelude.{
  ℕ, ◌+◌, not, List, [], ◌∷◌, none, some, Run, ret, ◌>>=◌, ltb, ◌==◌, if◌then◌else◌, index, slice,
  u16_of, u32_of, is_empty, saturating_add_u32,
}
use rust_telemetry_logger.Protocol.{max_payload, header_len, crc16_len, min_frame_len}
use rust_telemetry_logger.External.Cobs.{Cobs}
use rust_telemetry_logger.External.Heapless.{ByteVec}
use rust_telemetry_logger.Frame.{Frame}

pub data FramerState : Type 0 where
  collecting discarding : FramerState

pub data FrameOutput : Type 0 where
  incomplete : FrameOutput
  complete : Frame → FrameOutput
  overflow cobs_error parse_error : FrameOutput

pub record Framer : Type 0 where
  pub buf : List ℕ
  pub state : FramerState
  pub resync_count : ℕ

-- `new`, and `Default`.
abbrev pub new : Framer
new = record { buf = []; state = collecting; resync_count = 0 }

module _ (v : ByteVec) (cobs : Cobs) where
  -- `process` from the header on: the decoded bytes are a frame of `payload_len` bytes.
  unfoldable pub read_frame : List ℕ → ℕ → Run FrameOutput
  read_frame buf payload_len = do
    b₃ ← index buf 3
    b₄ ← index buf 4
    b₅ ← index buf 5
    b₆ ← index buf 6
    b₀ ← index buf 0
    b₁ ← index buf 1
    b₂ ← index buf 2
    bytes ← slice buf header_len (header_len + payload_len)
    elim (v.extend_from_slice max_payload [] bytes) [
      | none ↦ ret parse_error
      | some payload ↦
          let crc_start = header_len + payload_len in
          index buf crc_start >>= λ c₀. index buf (crc_start + 1) >>= λ c₁. ret (
            complete (record {
              header = record {
                version = b₀;
                packet_type = b₁;
                severity = b₂;
                sequence = u32_of b₃ b₄ b₅ b₆;
                payload_len = payload_len;
              };
              payload = payload;
              crc_bytes = (c₀, c₁);
            }))
    ]

  -- `process` after COBS decoding: the structural checks.
  unfoldable pub check_decoded : List ℕ → ℕ → Run FrameOutput
  check_decoded buf decoded_len =
      let checks : Run FrameOutput = do
        b₇ ← index buf 7
        b₈ ← index buf 8
        let payload_len = u16_of b₇ b₈
        if ltb max_payload payload_len
            then ret parse_error
            else if not (decoded_len == header_len + payload_len + crc16_len)
            then ret parse_error
            else read_frame buf payload_len
      in if ltb decoded_len min_frame_len then ret parse_error else checks

  unfoldable pub process : Framer → Run (FrameOutput × Framer)
  process f =
      let (decoded, buf) = cobs.decode_in_place f.buf in
      elim decoded [
        | none ↦
            ret (
              cobs_error,
              record f { buf = buf; resync_count = saturating_add_u32 f.resync_count 1 },
            )
        | some decoded_len ↦ do
          out ← check_decoded buf decoded_len
          ret (out, record f { buf = buf })
      ]

  -- `N` is the capacity of the buffer.
  module _ (N : ℕ) where
    unfoldable pub feed_discarding : Framer → ℕ → Run (FrameOutput × Framer)
    feed_discarding f byte =
        if byte == 0x00
        then ret (incomplete, record f { buf = []; state = collecting })
        else ret (incomplete, f)

    unfoldable pub feed_collecting : Framer → ℕ → Run (FrameOutput × Framer)
    feed_collecting f byte =
        let delimited : Run (FrameOutput × Framer) = do
          (result, f') ← process f
          ret (result, record f' { buf = [] })
        in if not (byte == 0x00)
          then elim (v.push N f.buf byte) [
            | none ↦ ret (
              overflow,
              record f {
                state = discarding;
                resync_count = saturating_add_u32 f.resync_count 1;
                buf = [];
              },
            )
            | some buf ↦ ret (incomplete, record f { buf = buf })
          ]
          else if is_empty f.buf
          then ret (incomplete, f)
          else delimited

    unfoldable pub feed : Framer → ℕ → Run (FrameOutput × Framer)
    unfolding feed_discarding feed_collecting
    feed f byte = elim f.state [
      | discarding ↦ feed_discarding f byte
      | collecting ↦ feed_collecting f byte
    ]

    -- A caller's loop over a slice of bytes, with every output.
    unfoldable pub feed_all : Framer → List ℕ → Run (List FrameOutput × Framer)
    feed_all f [] = ret ([], f)
    feed_all f (b ∷ bs) = do
      (out, f') ← feed f b
      (outs, f'') ← feed_all f' bs
      ret (out ∷ outs, f'')
