-- ===== src/FileStorage/Rotation.antt =====
-- Where a successful write puts its bytes.
use rust_telemetry_logger.Prelude.{
  ℕ, ◌+◌, ◌^◌, ◌<◌, ◌≤◌, ◌≡◌, ◌⊎◌, ◌∙◌, ap, refl, arith, inl, inr, List, [], ◌++◌, false, true,
  none, some, length, ◌||◌, Bool-cases, Option-cases, ltb, ltb→ge, ltb→lt, is_none,
}
use rust_telemetry_logger.External.Files.{Files, FilesLaws}
use rust_telemetry_logger.FileStorage.{FileStorage, open_next_segment, append, needs_rotate, write}
use rust_telemetry_logger.FileStorage.Calls.{
  IsFileStorage, IsWritten, Fails, append_cases, open_cases,
}

module _ {D F E : Type 0} {fs : Files D F E} (l : FilesLaws fs) where
  stays_cases :
      (s : FileStorage F) (d : D) (bytes : List ℕ)
      → needs_rotate fs s bytes ≡ false
      → IsFileStorage l s d
      → (s.current_size + length bytes ≤ s.max_segment_bytes)
        × (IsWritten l s.segment_index
              (l.contents d s.segment_index)
              bytes
              s
              d
              (append fs (s, d) bytes)
            ⊎ Fails l (append fs (s, d) bytes))
        × ((f : F) × (s.current_file ≡ some f))
  unfolding needs_rotate
  stays_cases s d bytes stays h = elim (Option-cases s.current_file) [
    | inl closed ↦ cc (
      stays,
      ap (λ o. is_none o || ltb s.max_segment_bytes (s.current_size + length bytes)) closed,
    )
    | inr (f, opened) ↦
        let room : ltb s.max_segment_bytes (s.current_size + length bytes) ≡ false = cc (
          stays,
          ap (λ o. is_none o || ltb s.max_segment_bytes (s.current_size + length bytes)) opened,
        ) in
        (ltb→ge _ _ room, append_cases l s d f bytes opened h, (f, opened))
  ]

  rotates_cases :
      (s : FileStorage F) (d : D) (bytes : List ℕ)
      → needs_rotate fs s bytes ≡ true
      → IsFileStorage l s d
      → (s.current_file ≡ none)
        ⊎ (s.max_segment_bytes < length (l.contents d s.segment_index) + length bytes)
  unfolding needs_rotate
  rotates_cases s d bytes rotates h = elim (Option-cases s.current_file) [
    | inl closed ↦ inl closed
    | inr (f, opened) ↦
        let full : ltb s.max_segment_bytes (s.current_size + length bytes) ≡ true = cc (
          rotates,
          ap (λ o. is_none o || ltb s.max_segment_bytes (s.current_size + length bytes)) opened,
        ) in
        inr (omega (arith, ltb→lt _ _ full, h.size f opened))
  ]

  -- If the storage knows its open segment and its size, and the index has room, a write fails with
  -- an error, or its bytes go, whole, to the end of the current segment, which
  -- is open and stays within the limit, or, if no segment is open or the current one would grow beyond the
  -- limit, to a new segment with the next index, which holds nothing else. In both cases no other segment changes, and the storage knows its open segment and its size.
  pub write_cases :
      (s : FileStorage F) (d : D) (bytes : List ℕ)
      → IsFileStorage l s d
      → s.segment_index + 1 < 2 ^ 32
      → ((length (l.contents d s.segment_index) + length bytes ≤ s.max_segment_bytes)
          × ((f : F) × (s.current_file ≡ some f))
          × IsWritten l s.segment_index
              (l.contents d s.segment_index)
              bytes
              s
              d
              (write fs (s, d) bytes))
        ⊎ (((s.current_file ≡ none)
                ⊎ (s.max_segment_bytes < length (l.contents d s.segment_index) + length bytes))
              × IsWritten l (s.segment_index + 1) [] bytes s d (write fs (s, d) bytes)
            ⊎ Fails l (write fs (s, d) bytes))
  unfolding write
  write_cases s d bytes h small = elim (Bool-cases (needs_rotate fs s bytes)) [
    | inr stays ↦
        let (room, outcome, (f, opened)) = stays_cases s d bytes stays h in
        rw (stays, write)
          (elim outcome [
            | inl w ↦ inl (omega (arith, room, h.size f opened), (f, opened), w)
            | inr fails ↦ inr (inr fails)
          ])
    | inl rotates ↦ elim (open_cases l s d small) [
      | inr (e, fails) ↦ inr (inr (e, rw (rotates, write) (rw fails refl)))
      | inl w ↦
          let (f, opened) = w.opened in
          let s₁ = (open_next_segment fs (s, d)).1 in
          let d₁ = (open_next_segment fs (s, d)).2 in
          let e : write fs (s, d) bytes ≡ append fs (s₁, d₁) bytes =
            rw (rotates, write) (rw w.done refl) in
          rw e (elim (append_cases l s₁ d₁ f bytes opened w.valid) [
            | inr fails ↦ inr (inr fails)
            | inl a ↦ inr (
                inl (
                  rotates_cases s d bytes rotates h,
                  record {
                    done = a.done;
                    opened = a.opened;
                    segment = a.segment ∙ w.segment;
                    limit = a.limit ∙ w.limit;
                    valid = a.valid;
                    bytes_at = record {
                      grown =
                          (rw w.segment at a.bytes_at.grown)
                          ∙ ap (λ l. l ++ bytes) w.bytes_at.grown;
                      others =
                          λ j ne. a.bytes_at.others j (rw w.segment ne) ∙ w.bytes_at.others j ne;
                    };
                  },
                ))
          ])
    ]
  ]
