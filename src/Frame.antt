-- ===== src/Frame.antt =====
-- crates/telemetry-core/src/frame.rs: the wire frame and its encoders.
pub mod New
pub mod Layout
pub mod Wire
use rust_telemetry_logger.Prelude.{
  ℕ, ◌^◌, ◌+◌, ◌%◌, ◌/◌, ◌≤◌, ◌≡◌, List, [], ◌∷◌, Option, none, some, Run, ret, ◌>>=◌, ltb, length,
  if◌then◌else◌, set_index, copy_at, slice, le16, le32, zeroed, All, IsU8, IsU32,
}
use rust_telemetry_logger.Protocol.{
  protocol_version, max_payload, header_len, crc16_len, min_frame_len,
}
use rust_telemetry_logger.External.Cobs.{Cobs}
use rust_telemetry_logger.External.Crc.{Crc}
use rust_telemetry_logger.External.Heapless.{ByteVec}

abbrev pub max_cobs_frame_bytes : ℕ
max_cobs_frame_bytes = 494

pub record Header : Type 0 where
  pub version : ℕ
  pub packet_type : ℕ
  pub severity : ℕ
  pub sequence : ℕ
  pub payload_len : ℕ

pub record Frame : Type 0 where
  pub header : Header
  pub payload : List ℕ
  pub crc_bytes : ℕ × ℕ

-- `u16::try_from(usize)`
abbrev u16_try_from : ℕ → Option ℕ
u16_try_from n = if ltb n (2 ^ 16) then some n else none

module _ (v : ByteVec) where
  unfoldable pub new : ℕ → ℕ → ℕ → List ℕ → Option Frame
  new packet_type severity sequence payload =
      if ltb max_payload (length payload)
      then none
      else elim (v.extend_from_slice max_payload [] payload) [
        | none ↦ none
        | some p ↦ elim (u16_try_from (length payload)) [
          | none ↦ none
          | some payload_len ↦ some (record {
            header = record {
              version = protocol_version;
              packet_type = packet_type;
              severity = severity;
              sequence = sequence;
              payload_len = payload_len;
            };
            payload = p;
            crc_bytes = (0, 0);
          })
        ]
      ]

unfoldable pub raw_len : Frame → ℕ
raw_len f = min_frame_len + length f.payload

-- The digest that `compute_crc` and, on its own, `Validator::check` feed.
module _ (crc16 : Crc) where
  unfoldable pub compute_crc : Frame → ℕ × ℕ
  compute_crc f =
      let d₀ = crc16.digest in
      let d₁ = crc16.update d₀ (f.header.version ∷ f.header.packet_type ∷ f.header.severity ∷ []) in
      let d₂ = crc16.update d₁ (le32 f.header.sequence) in
      let d₃ = crc16.update d₂ (le16 f.header.payload_len) in
      let d₄ = crc16.update d₃ f.payload in
      let crc = crc16.finalize d₄ in (crc % 256, crc / 256 % 256)

  -- The result, and `buf` afterwards.
  unfoldable pub encode_raw : Frame → List ℕ → Run (Option ℕ × List ℕ)
  encode_raw f buf =
      let n = raw_len f in
      let write : Run (Option ℕ × List ℕ) = do
        b₁ ← set_index buf 0 f.header.version
        b₂ ← set_index b₁ 1 f.header.packet_type
        b₃ ← set_index b₂ 2 f.header.severity
        b₄ ← copy_at b₃ 3 7 (le32 f.header.sequence)
        b₅ ← copy_at b₄ 7 9 (le16 f.header.payload_len)
        let payload_end = header_len + length f.payload
        b₆ ← copy_at b₅ header_len payload_end f.payload
        let crc = compute_crc f
        b₇ ← copy_at b₆ payload_end (payload_end + crc16_len) (crc.0 ∷ crc.1 ∷ [])
        ret (some n, b₇)
      in if ltb (length buf) n then ret (none, buf) else write

  module _ (cobs : Cobs) where
    unfoldable pub encode_cobs : Frame → List ℕ → Run (Option ℕ × List ℕ)
    encode_cobs f buf = do
      (n, raw) ← encode_raw f (zeroed (min_frame_len + max_payload))
      elim n [
        | none ↦ ret (none, buf)
        | some raw_len ↦
            let write : Run (Option ℕ × List ℕ) = do
              src ← slice raw 0 raw_len
              let (written, b₁) = cobs.encode src buf
              b₂ ← set_index b₁ written 0x00
              ret (some (written + 1), b₂)
            in if ltb (length buf) (cobs.max_encoding_length raw_len + 1)
              then ret (none, buf)
              else write
      ]

-- What the Rust types and the constructors guarantee of a frame.
pub record IsFrame (f : Frame) : Type 0 where
  pub version : IsU8 f.header.version
  pub packet_type : IsU8 f.header.packet_type
  pub severity : IsU8 f.header.severity
  pub sequence : IsU32 f.header.sequence
  pub payload_len : f.header.payload_len ≡ length f.payload
  pub payload : All IsU8 f.payload
  pub fits : length f.payload ≤ max_payload
