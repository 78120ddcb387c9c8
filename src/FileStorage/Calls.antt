-- ===== src/FileStorage/Calls.antt =====
-- What the calls of the segment writer to the file system do.
use rust_telemetry_logger.Prelude.{
  ℕ, ◌+◌, ◌%◌, ◌^◌, ◌<◌, ◌≡◌, ◌≢◌, ◌⊎◌, ◌∙◌, ap, sym, refl, arith, inl, inr, List, [], ◌++◌, some,
  ok, err, Result, length, length-append, Option-cases, Result-cases,
}
use rust_telemetry_logger.External.Files.{Files, FilesLaws}
use rust_telemetry_logger.FileStorage.{
  FileStorage, flush, create_segment, open_next_segment, append,
}

module _ {D F E : Type 0} {fs : Files D F E} (l : FilesLaws fs) where
  -- The open file is the segment of the current index, and its size is known.
  pub record IsFileStorage (s : FileStorage F) (d : D) : Type 0 where
    pub current : (f : F) → s.current_file ≡ some f → l.index f ≡ s.segment_index
    pub size :
        (f : F) → s.current_file ≡ some f → s.current_size ≡ length (l.contents d s.segment_index)

  -- What a write of `bytes` behind `before`, in the segment `i`, does to the disk.
  pub record IsAppended (i : ℕ) (before bytes : List ℕ) (d d' : D) : Type 0 where
    pub grown : l.contents d' i ≡ before ++ bytes
    pub others : (j : ℕ) → j ≢ i → l.contents d' j ≡ l.contents d j

  -- The write failed with an error.
  abbrev pub Fails : Result (Unit {0}) E × FileStorage F × D → Type 0
  Fails r = (e : E) × (r.0 ≡ err e)

  -- The write succeeded, in the segment `i`.
  pub record IsWritten (i : ℕ) (before bytes : List ℕ) (s : FileStorage F) (d : D)
      (r : Result (Unit {0}) E × FileStorage F × D) : Type 0 where
    pub done : r.0 ≡ ok tt
    pub segment : r.1.segment_index ≡ i
    pub limit : r.1.max_segment_bytes ≡ s.max_segment_bytes
    pub opened : (f : F) × (r.1.current_file ≡ some f)
    pub valid : IsFileStorage r.1 r.2
    pub bytes_at : IsAppended i before bytes d r.2

  pub append_cases :
      (s : FileStorage F) (d : D) (f : F) (bytes : List ℕ)
      → s.current_file ≡ some f
      → IsFileStorage s d
      → IsWritten s.segment_index (l.contents d s.segment_index) bytes s d (append fs (s, d) bytes)
        ⊎ Fails (append fs (s, d) bytes)
  unfolding append
  append_cases s d f bytes opened h =
      let d' = (fs.write_all d f bytes).1 in
      let i = h.current f opened in
      elim (Result-cases (fs.write_all d f bytes).0) [
        | inr (e, fails) ↦ inr (e, rw (opened, append) (rw fails refl))
        | inl (u, wrote) ↦
            let grown : l.contents d' s.segment_index ≡ l.contents d s.segment_index ++ bytes =
              rw i at (l.contents-write_all d f bytes wrote) in
            let s' : FileStorage F = record s { current_size = s.current_size + length bytes } in
            let e : append fs (s, d) bytes ≡ (ok tt, s', d') =
              rw (opened, append)
                (rw wrote (
                  ap {B = Result (Unit {0}) E × FileStorage F × D}
                    (λ o. (ok tt, record s' { current_file = o }, d')) opened)) in
            rw e (
              inl (record {
                done = refl;
                segment = refl;
                limit = refl;
                opened = (f, opened);
                valid = record {
                  current = λ g o. h.current g o;
                  size = λ g o. omega (
                    arith,
                    h.size g o,
                    ap length grown,
                    length-append (l.contents d s.segment_index) bytes,
                  );
                };
                bytes_at = record {
                  grown = grown;
                  others = λ j ne. l.write_all-other d f bytes j (rw i ne);
                };
              }))
      ]

  create_cases :
      (s : FileStorage F) (d : D)
      → s.segment_index + 1 < 2 ^ 32
      → IsWritten (s.segment_index + 1) [] [] s d (create_segment fs (s, d))
        ⊎ Fails (create_segment fs (s, d))
  unfolding create_segment
  create_cases s d small =
      let i = (s.segment_index + 1) % 2 ^ 32 in
      let same : i ≡ s.segment_index + 1 = omega arith in
      let d' = (fs.create d i).1 in
      elim (Result-cases (fs.create d i).0) [
        | inr (e, fails) ↦ inr (e, rw (fails, create_segment) refl)
        | inl (f, created) ↦
            let s' : FileStorage F = record s {
              segment_index = i;
              current_file = some f;
              current_size = 0;
            } in
            let e : create_segment fs (s, d) ≡ (ok tt, s', d') =
              rw (created, create_segment) refl in
            let fresh : l.contents d' i ≡ [] = l.contents-create d i f created in
            rw e (
              inl (record {
                done = refl;
                segment = same;
                limit = refl;
                opened = (f, refl);
                valid = record {
                  current = λ g o. cc (o, l.create-index d i f created);
                  size = λ g o. sym (ap length fresh);
                };
                bytes_at = record {
                  grown = ap (l.contents d') (sym same) ∙ fresh;
                  others = λ j ne. l.create-other d i j (rw same ne);
                };
              }))
      ]

  pub flush_cases :
      (s : FileStorage F) (d : D)
      → ((d' : D) × (flush fs (s, d) ≡ (ok tt, s, d'))
          × ((j : ℕ) → l.contents d' j ≡ l.contents d j))
        ⊎ Fails (flush fs (s, d))
  unfolding flush
  flush_cases s d = elim (Option-cases s.current_file) [
    | inl closed ↦ inl (
      d,
      rw (closed, flush)
          (ap {B = Result (Unit {0}) E × FileStorage F × D}
            (λ o. (ok tt, record s { current_file = o }, d)) closed),
      λ j. refl,
    )
    | inr (f, opened) ↦ elim (Result-cases (fs.flush d f).0) [
      | inr (e, fails) ↦ inr (e, rw (opened, flush) (rw fails refl))
      | inl (u, flushed) ↦ inl (
        (fs.flush d f).1,
        rw (opened, flush)
            (rw flushed (
              ap {B = Result (Unit {0}) E × FileStorage F × D}
                (λ o. (ok tt, record s { current_file = o }, (fs.flush d f).1)) opened)),
        λ j. l.contents-flush d f j,
      )
    ]
  ]

  pub open_cases :
      (s : FileStorage F) (d : D)
      → s.segment_index + 1 < 2 ^ 32
      → IsWritten (s.segment_index + 1) [] [] s d (open_next_segment fs (s, d))
        ⊎ Fails (open_next_segment fs (s, d))
  unfolding open_next_segment
  open_cases s d small = elim (flush_cases s d) [
    | inr (e, fails) ↦ inr (e, rw (fails, open_next_segment) refl)
    | inl (d₁, flushed, same) ↦
        let e : open_next_segment fs (s, d) ≡ create_segment fs (s, d₁) =
          rw (flushed, open_next_segment) (ap (λ r. create_segment fs (r.1, r.2)) flushed) in
        rw e (elim (create_cases s d₁ small) [
          | inr fails ↦ inr fails
          | inl w ↦ inl (record {
            done = w.done;
            segment = w.segment;
            limit = w.limit;
            opened = w.opened;
            valid = w.valid;
            bytes_at = record {
              grown = w.bytes_at.grown;
              others = λ j ne. w.bytes_at.others j ne ∙ same j;
            };
          })
        ])
  ]
