-- ===== src/Record/RoundTrip.antt =====
-- `decode` reads back what `encode` stored.
use rust_telemetry_logger.Prelude.{
  ℕ, ◌+◌, ◌-◌, ◌≤◌, ◌≡◌, ◌∙◌, ◌^◌, ap, sym, refl, arith, List, [], ◌∷◌, ◌++◌, some, ret, ok, false,
  true, length, drop, take, length-append, ge→ltb, le32, All, zeroed, length-zeroed, u32_of-le32,
  slice_front, slice_between, copy_at_front, append_assoc, last?, eq→==, IsU32, is_empty-pos,
  take-append, take-append_eq,
}
use rust_telemetry_logger.External.Cobs.{Cobs, CobsLaws, IsNonzeroU8}
use rust_telemetry_logger.External.Crc.{Crc, CrcLaws}
use rust_telemetry_logger.External.Postcard.{Postcard}
use rust_telemetry_logger.Record.{
  StoredRecord, IsStoredRecord, u32_from_slice, ends_with_zero, verify, decode_cobs, decode, encode,
  max_stored_record_bytes,
}
use rust_telemetry_logger.Record.Format.{
  PostcardLaws, checked_bytes, stored_body, length-checked_bytes, length-stored_body,
  checked_bytes-IsU8, encode_layout,
}

last?-append {ℓ} : {A : Type ℓ} (xs : List A) (x : A) → last? (xs ++ (x ∷ [])) ≡ some x
last?-append [] x = refl
last?-append (y ∷ []) x = refl
last?-append (y ∷ (z ∷ zs)) x = last?-append (z ∷ zs) x

pub ends_with_zero-append : (xs : List ℕ) → ends_with_zero (xs ++ (0 ∷ [])) ≡ true
unfolding ends_with_zero
ends_with_zero-append xs = rw (last?-append xs 0, ends_with_zero)

pub ends_with_zero-nonzero : (xs : List ℕ) → All IsNonzeroU8 xs → ends_with_zero xs ≡ false
unfolding ends_with_zero
ends_with_zero-nonzero [] h = refl
ends_with_zero-nonzero (x ∷ []) h = ground arith
ends_with_zero-nonzero (x ∷ (y ∷ ys)) h = ends_with_zero-nonzero (y ∷ ys) h.1

module _ {postcard : Postcard StoredRecord} (pl : PostcardLaws postcard) {crc32 : Crc}
    (cl : CrcLaws (2 ^ 32) crc32) {cobs : Cobs} (k : CobsLaws cobs) where
  checksum-lt : (xs : List ℕ) → IsU32 (crc32.checksum xs)
  checksum-lt xs = rw (cl.checksum_lem xs) (cl.finalize-lt _)

  verify_split :
      (bytes rest : List ℕ) (c m : ℕ) (r : StoredRecord)
      → m ≡ length bytes + 4
      → crc32.checksum bytes ≡ c
      → IsU32 c
      → postcard.from_bytes bytes ≡ some r
      → verify postcard crc32 cobs (bytes ++ (le32 c ++ rest)) m ≡ ret (ok r)
  unfolding verify u32_from_slice
  verify_split bytes rest c m r e same small reads =
      rw (slice_between bytes (le32 c) rest (m - 4) m (omega arith) (omega arith)) (
        rw (slice_front bytes (le32 c ++ rest) (m - 4) (omega arith))
          (rw (u32_of-le32 c small) (rw (eq→== _ _ same) (rw reads))))

  verify-checked_bytes :
      (r : StoredRecord) (rest : List ℕ)
      → IsStoredRecord r
      → verify postcard crc32 cobs
          (checked_bytes pl crc32 k r ++ rest)
          (length (checked_bytes pl crc32 k r))
        ≡ ret (ok r)
  verify-checked_bytes r rest h =
      let bytes = pl.bytes r in
      let c = crc32.checksum bytes in
      rw (append_assoc bytes (le32 c) rest) (
        verify_split bytes rest c (length (checked_bytes pl crc32 k r)) r
          (length-checked_bytes pl crc32 k r) refl (checksum-lt bytes) (pl.from_bytes-bytes r h))

  pub decode_cobs-stored_body :
      (r : StoredRecord)
      → IsStoredRecord r
      → decode_cobs postcard crc32 cobs (stored_body pl crc32 k r) ≡ ret (ok r)
  unfolding decode_cobs
  decode_cobs-stored_body r h =
      let body = stored_body pl crc32 k r in
      let n = length body in
      let z = zeroed max_stored_record_bytes in
      let src = checked_bytes pl crc32 k r in
      let len : n ≤ 506 = length-stored_body pl crc32 k r h in
      let decodes : cobs.decode_in_place body ≡ (some (length src), src ++ k.tail src) =
        k.decode-encoded src (checked_bytes-IsU8 pl crc32 k r h) in
      let rest = drop n (body ++ drop n z) in
      rw (is_empty-pos body (k.encoded_pos src)) (
        rw (ge→ltb 512 n (omega arith)) (
          rw (copy_at_front [] z body 0 n refl (omega arith) (rw length-zeroed (omega arith))) (
            rw (slice_front body (drop n z) n refl) (
              rw decodes (
                rw (ge→ltb (length src) 4 (omega (arith, length-checked_bytes pl crc32 k r))) (
                  rw decodes (
                    rw (append_assoc src (k.tail src) rest)
                      (verify-checked_bytes r (k.tail src ++ rest) h))))))))

  pub decode-delimited :
      (r : StoredRecord)
      → IsStoredRecord r
      → decode postcard crc32 cobs (stored_body pl crc32 k r ++ (0 ∷ [])) ≡ ret (ok r)
  unfolding decode
  decode-delimited r h =
      let body = stored_body pl crc32 k r in
      let n = length (body ++ (0 ∷ [])) - 1 in
      rw (ends_with_zero-append body) (
        rw (slice_front body (0 ∷ []) n (omega (arith, length-append body (0 ∷ []))))
          (decode_cobs-stored_body r h))

  pub decode-stored_body :
      (r : StoredRecord)
      → IsStoredRecord r
      → decode postcard crc32 cobs (stored_body pl crc32 k r) ≡ ret (ok r)
  unfolding decode
  decode-stored_body r h =
      rw
        (ends_with_zero-nonzero (stored_body pl crc32 k r)
          (k.encoded-IsNonzeroU8 (checked_bytes pl crc32 k r) (checked_bytes-IsU8 pl crc32 k r h)))
        (decode_cobs-stored_body r h)

  -- In a buffer of `MAX_STORED_RECORD_BYTES` every well-formed record can be encoded, in at most
  -- 507 bytes, and decoding the written bytes gives the record, with the delimiter or without.
  pub decode-encode :
      (r : StoredRecord) (buf : List ℕ)
      → IsStoredRecord r
      → max_stored_record_bytes ≤ length buf
      → (n : ℕ) × (buf' : List ℕ) × (encode postcard crc32 cobs r buf ≡ ret (ok (n + 1), buf'))
        × (n ≤ 506)
        × (decode postcard crc32 cobs (take (n + 1) buf') ≡ ret (ok r))
        × (decode postcard crc32 cobs (take n buf') ≡ ret (ok r))
  decode-encode r buf h room =
      let body = stored_body pl crc32 k r in
      let n = length body in
      let rest = drop (n + 1) buf in
      (
        n,
        body ++ (0 ∷ rest),
        encode_layout pl crc32 k r buf h room,
        length-stored_body pl crc32 k r h,
        ap (decode postcard crc32 cobs) (
              ap (take (n + 1)) (sym (append_assoc body (0 ∷ []) rest))
              ∙ take-append_eq (body ++ (0 ∷ [])) rest (n + 1)
                  (omega (arith, length-append body (0 ∷ []))))
            ∙ decode-delimited r h,
        ap (decode postcard crc32 cobs) (take-append body (0 ∷ rest)) ∙ decode-stored_body r h,
      )
