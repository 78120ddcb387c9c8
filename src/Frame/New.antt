-- ===== src/Frame/New.antt =====
-- `Frame::new`
use rust_telemetry_logger.Prelude.{
  ℕ, ◌+◌, ◌≤◌, ◌<◌, ◌≡◌, ◌⊎◌, inl, inr, refl, arith, List, [], none, some, ltb, ltb→ge, lt→ltb,
  ltb→lt, Bool-cases, All, IsU8, IsU32, length, le→leb,
}
use rust_telemetry_logger.External.Heapless.{ByteVec, ByteVecLaws}
use rust_telemetry_logger.Frame.{Frame, IsFrame, new}
use rust_telemetry_logger.Protocol.{max_payload, protocol_version}

module _ {v : ByteVec} (vl : ByteVecLaws v) where
  -- From bytes and a 32-bit sequence number, `new` makes a well-formed frame of the current
  -- version with the given fields and payload, or, exactly if the payload is longer than
  -- `MAX_PAYLOAD`, nothing.
  pub new-IsFrame :
      (t s q : ℕ) (payload : List ℕ)
      → IsU8 t
      → IsU8 s
      → IsU32 q
      → All IsU8 payload
      → ((max_payload < length payload) × (new v t s q payload ≡ none))
        ⊎ ((length payload ≤ max_payload)
            × (f : Frame) × (new v t s q payload ≡ some f)
            × IsFrame f
            × (f.header.version ≡ protocol_version)
            × (f.header.packet_type ≡ t)
            × (f.header.severity ≡ s)
            × (f.header.sequence ≡ q)
            × (f.payload ≡ payload))
  unfolding new
  new-IsFrame t s q payload ht hs hq hp = elim (Bool-cases (ltb max_payload (length payload))) [
    | inl long ↦ inl (ltb→lt _ _ long, rw long)
    | inr short ↦
        let fits : length payload ≤ max_payload = ltb→ge _ _ short in
        let f : Frame = record {
          header = record {
            version = protocol_version;
            packet_type = t;
            severity = s;
            sequence = q;
            payload_len = length payload;
          };
          payload = payload;
          crc_bytes = (0, 0);
        } in
        inr (
          fits,
          f,
          rw short (
              rw (vl.extend_lem max_payload [] payload) (
                rw (le→leb (0 + length payload) max_payload (omega arith))
                  (rw (lt→ltb (length payload) 65536 (omega arith))))),
          record {
            version = omega arith;
            packet_type = ht;
            severity = hs;
            sequence = hq;
            payload_len = refl;
            payload = hp;
            fits = fits;
          },
          refl,
          refl,
          refl,
          refl,
          refl,
        )
  ]
