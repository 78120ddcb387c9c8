-- ===== src/Record/Total.antt =====
-- `decode` on any input.
use rust_telemetry_logger.Prelude.{
  ℕ, ◌-◌, ◌≤◌, ◌≡◌, ◌⊎◌, refl, arith, List, [], ◌++◌, Option, some, none, Run, ret, ◌>>=◌, slice,
  Result, ok, err, Option-cases, length, drop, take, length-append, ltb, ltb→ge, if◌then◌else◌,
  zeroed, length-zeroed, slice_ret, not, ◌==◌, slice_front, copy_at_front, Bool-cases, inl, inr,
  is_empty,
}
use rust_telemetry_logger.Error.{Error, codec}
use rust_telemetry_logger.External.Cobs.{Cobs, CobsLaws}
use rust_telemetry_logger.External.Crc.{Crc}
use rust_telemetry_logger.External.Postcard.{Postcard}
use rust_telemetry_logger.Record.{
  StoredRecord, u32_from_slice, ends_with_zero, verify, decode_cobs, decode,
  max_stored_record_bytes,
}

-- A record, or `Error::Codec`.
abbrev pub IsReply : Run (Result StoredRecord Error) → Type 0
IsReply m = ((r : StoredRecord) × (m ≡ ret (ok r))) ⊎ (m ≡ ret (err codec))

module _ (postcard : Postcard StoredRecord) (crc32 : Crc) {cobs : Cobs} (k : CobsLaws cobs) where
  deserialised :
      (o : Option StoredRecord) → IsReply (elim o [ none ↦ ret (err codec) | some r ↦ ret (ok r) ])
  deserialised none = inr refl
  deserialised (some r) = inl (r, refl)

  checked :
      (stored : Option ℕ) (buf bytes : List ℕ) (n : ℕ)
      → slice buf 0 n ≡ ret bytes
      → IsReply (elim stored [
        | none ↦ ret (err codec)
        | some c ↦ slice buf 0 n >>= λ bytes.
            if not (crc32.checksum bytes == c)
            then ret (err codec)
            else elim (postcard.from_bytes bytes) [ none ↦ ret (err codec) | some r ↦ ret (ok r) ]
      ])
  checked none buf bytes n e = inr refl
  checked (some c) buf bytes n e = rw e (elim (Bool-cases (crc32.checksum bytes == c)) [
    | inl same ↦ rw same (deserialised (postcard.from_bytes bytes))
    | inr differs ↦ rw differs (inr refl)
  ])

  verify_total :
      (buf : List ℕ) (n : ℕ) → 4 ≤ n → n ≤ length buf → IsReply (verify postcard crc32 cobs buf n)
  unfolding verify
  verify_total buf n four fits = rw (slice_ret buf (n - 4) n (omega arith) fits) (
      checked (u32_from_slice (take (n - (n - 4)) (drop (n - 4) buf))) buf _ (n - 4)
        (slice_ret buf 0 (n - 4) (omega arith) (omega arith)))

  decode_cobs_total : (bytes : List ℕ) → IsReply (decode_cobs postcard crc32 cobs bytes)
  unfolding decode_cobs
  decode_cobs_total bytes =
      let n = length bytes in
      let z = zeroed max_stored_record_bytes in
      elim (Bool-cases (is_empty bytes)) [
        | inl empty ↦ rw empty (inr refl)
        | inr more ↦ elim (Bool-cases (ltb max_stored_record_bytes n)) [
          | inl long ↦ rw (more, long) (inr refl)
          | inr short ↦
              let e₁ =
                copy_at_front [] z bytes 0 n refl (omega arith)
                  (rw length-zeroed (ltb→ge _ _ short)) in
              let e₂ = slice_front bytes (drop n z) n refl in
              rw (more, short)
                (rw e₁ (
                  rw e₂ (elim (Option-cases (cobs.decode_in_place bytes).0) [
                    | inl fails ↦ rw fails (inr refl)
                    | inr (m, decodes) ↦ rw decodes (elim (Bool-cases (ltb m 4)) [
                      | inl little ↦ rw little (inr refl)
                      | inr enough ↦ rw enough (
                          verify_total
                            ((cobs.decode_in_place bytes).1 ++ drop n (bytes ++ drop n z)) m
                            (ltb→ge _ _ enough)
                            (rw length-append
                              (omega (arith, k.decode-le bytes m decodes, k.length-decode bytes))))
                    ])
                  ])))
        ]
      ]

  -- Whatever the bytes, decoding returns a record or `Error::Codec`: no index or slice is out of
  -- bounds.
  pub decode_total : (buf : List ℕ) → IsReply (decode postcard crc32 cobs buf)
  unfolding decode
  decode_total buf = elim (Bool-cases (ends_with_zero buf)) [
    | inl delimited ↦
        rw (delimited, slice_ret buf 0 (length buf - 1) (omega arith) (omega arith))
          (decode_cobs_total _)
    | inr bare ↦ rw bare (decode_cobs_total buf)
  ]
