-- ===== src/Segment/Read.antt =====
-- What `read_segment` makes of a segment that `drain` wrote.
use rust_telemetry_logger.Prelude.{
  ℕ, ◌≡◌, ◌∙◌, ◌^◌, panic, diverge, ap, refl, sym, arith, List, [], ◌∷◌, ◌++◌, map, Run, ret, ◌>>=◌,
  ◌==◌, false, ok, All, is_empty-pos, append_assoc, append-nil,
}
use rust_telemetry_logger.External.Cobs.{CobsLaws, IsNonzeroU8}
use rust_telemetry_logger.External.Crc.{CrcLaws}
use rust_telemetry_logger.Record.{StoredRecord, IsStoredRecord}
use rust_telemetry_logger.Record.Format.{
  PostcardLaws, stored_body, checked_bytes, checked_bytes-IsU8,
}
use rust_telemetry_logger.Record.RoundTrip.{decode-stored_body}
use rust_telemetry_logger.Pipeline.{Crates}
use rust_telemetry_logger.Pipeline.Bytes.{stored, stored_all}
use rust_telemetry_logger.Segment.{split, extend_first, decode_chunks, read_segment}

-- A chunk without zero bytes, up to its delimiter.
split-delimited : (c rest : List ℕ) → All IsNonzeroU8 c → split (c ++ (0 ∷ rest)) ≡ c ∷ split rest
unfolding split extend_first
split-delimited [] rest h = refl
split-delimited (x ∷ c) rest h =
    let differs : (x == 0) ≡ false = ground (arith, h.0.1) in
    rw differs (ap (extend_first x) (split-delimited c rest h.1))

>>=-ret-ret :
    {A : Type 0} (m : Run A) (f g : A → A)
    → (m >>= (λ a. ret (f a)) >>= (λ a. ret (g a))) ≡ (m >>= λ a. ret (g (f a)))
>>=-ret-ret (ret a) f g = refl
>>=-ret-ret panic f g = refl
>>=-ret-ret diverge f g = refl

>>=-return : {A : Type 0} (m : Run A) → (m >>= λ a. ret a) ≡ m
>>=-return (ret a) = refl
>>=-return panic = refl
>>=-return diverge = refl

module _ (x : Crates) (k : CobsLaws x.cobs) (pl : PostcardLaws x.postcard)
    (crcl : CrcLaws (2 ^ 32) x.crc32) where
  read_segment-stored :
      (r : StoredRecord) (rest : List ℕ)
      → IsStoredRecord r
      → read_segment x.postcard x.crc32 x.cobs (stored_body pl x.crc32 k r ++ (0 ∷ rest))
        ≡ (read_segment x.postcard x.crc32 x.cobs rest >>= λ out. ret (ok r ∷ out))
  unfolding read_segment decode_chunks
  read_segment-stored r rest h =
      let b = stored_body pl x.crc32 k r in
      rw
        (split-delimited b rest (
          k.encoded-IsNonzeroU8 (checked_bytes pl x.crc32 k r)
            (checked_bytes-IsU8 pl x.crc32 k r h)))
        (rw (is_empty-pos b (k.encoded_pos (checked_bytes pl x.crc32 k r)))
          (rw (decode-stored_body pl crcl k r h) refl))

  -- A segment with the encodings of well-formed records and whatever comes behind them, such as a
  -- truncated record, is read as these records, in order, and what the rest is read as.
  pub read_segment-stored_all :
      (rs : List StoredRecord) (rest : List ℕ)
      → All IsStoredRecord rs
      → read_segment x.postcard x.crc32 x.cobs (stored_all x k pl rs ++ rest)
        ≡ (read_segment x.postcard x.crc32 x.cobs rest >>= λ out. ret (map (λ r. ok r) rs ++ out))
  unfolding stored_all
  read_segment-stored_all [] rest h = sym (>>=-return (read_segment x.postcard x.crc32 x.cobs rest))
  read_segment-stored_all (r ∷ rs) rest (h, hs) =
      let b = stored_body pl x.crc32 k r in
      ap (read_segment x.postcard x.crc32 x.cobs) (
        append_assoc (stored x k pl r) (stored_all x k pl rs) rest
        ∙ append_assoc b (0 ∷ []) (stored_all x k pl rs ++ rest))
      ∙ read_segment-stored r (stored_all x k pl rs ++ rest) h
      ∙ ap (λ m. m >>= λ out. ret (ok r ∷ out)) (read_segment-stored_all rs rest hs)
      ∙ >>=-ret-ret (read_segment x.postcard x.crc32 x.cobs rest) (λ out. map (λ r. ok r) rs ++ out)
          (λ out. ok r ∷ out)

  read_segment_nil : read_segment x.postcard x.crc32 x.cobs [] ≡ ret []
  unfolding read_segment decode_chunks split
  read_segment_nil = refl

  pub read_segment_exact :
      (rs : List StoredRecord)
      → All IsStoredRecord rs
      → read_segment x.postcard x.crc32 x.cobs (stored_all x k pl rs) ≡ ret (map (λ r. ok r) rs)
  read_segment_exact rs good =
      ap (read_segment x.postcard x.crc32 x.cobs) (sym (append-nil (stored_all x k pl rs)))
      ∙ read_segment-stored_all rs [] good
      ∙ ap (λ m. m >>= λ out. ret (map (λ r. ok r) rs ++ out)) read_segment_nil
      ∙ ap (λ l. ret l) (append-nil (map (λ r. ok r) rs))
