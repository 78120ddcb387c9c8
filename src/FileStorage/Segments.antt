-- ===== src/FileStorage/Segments.antt =====
-- The segment files behind writes of records, and behind `drain`.
use rust_telemetry_logger.Prelude.{
  map, All-append_left, All-append_right, ret, ◌^◌, All, ℕ, suc, ◌+◌, ◌≤◌, ◌<◌, ◌^◌, ◌≡◌, ◌⊎◌, ◌∙◌,
  ap, sym, refl, arith, List, [], ◌∷◌, ◌++◌, append-nil, true, false, length, lt→ltb, ge→ltb, inl,
  inr, is_none, Option-cases, is_empty, ok, ltb,
}
use rust_telemetry_logger.External.Cobs.{CobsLaws}
use rust_telemetry_logger.External.Files.{Files, FilesLaws}
use rust_telemetry_logger.FileStorage.{FileStorage, new, flush, write}
use rust_telemetry_logger.FileStorage.Groups.{place}
use rust_telemetry_logger.FileStorage.Calls.{IsFileStorage, IsWritten, Fails}
use rust_telemetry_logger.FileStorage.Rotation.{write_cases}
use rust_telemetry_logger.Pipeline.{Crates}
use rust_telemetry_logger.Pipeline.Bytes.{stored, stored_all, stored_all-append}
use rust_telemetry_logger.Segment.{read_segment}
use rust_telemetry_logger.Segment.Read.{read_segment_exact}
use rust_telemetry_logger.FileStorage.Groups.{in_order}
use rust_telemetry_logger.External.Crc.{CrcLaws}
use rust_telemetry_logger.Record.{StoredRecord, IsStoredRecord}
use rust_telemetry_logger.Record.Format.{PostcardLaws}

module _ (x : Crates) (k : CobsLaws x.cobs) (pl : PostcardLaws x.postcard) {D F E : Type 0}
    {fs : Files D F E} (l : FilesLaws fs) where
  -- The files of some groups of records, the newest first: the segment 1 is the last group.
  abbrev pub OnDisk : D → List (List StoredRecord) → Type 0
  OnDisk d [] = Unit
  OnDisk d (g ∷ gs) = (l.contents d (suc (length gs)) ≡ stored_all x k pl g) × OnDisk d gs

  -- The storage has written these groups, one in each segment, and the newest is open.
  pub record Holds (limit : ℕ) (gs : List (List StoredRecord)) (s : FileStorage F) (d : D)
      : Type 0 where
    pub valid : IsFileStorage l s d
    pub limited : s.max_segment_bytes ≡ limit
    pub index : s.segment_index ≡ length gs
    pub opened : is_none s.current_file ≡ is_empty gs
    pub files : OnDisk d gs

  pub new-Holds : (limit : ℕ) (d : D) → Holds limit [] (new fs limit) d
  new-Holds limit d = record {
    valid = record { current = λ f o. cc; size = λ f o. cc };
    limited = refl;
    index = refl;
    opened = refl;
    files = tt;
  }

  pub OnDisk-same :
      (gs : List (List StoredRecord)) (d d' : D)
      → ((j : ℕ) → j ≤ length gs → l.contents d' j ≡ l.contents d j)
      → OnDisk d gs
      → OnDisk d' gs
  OnDisk-same [] d d' same h = tt
  OnDisk-same (g ∷ gs) d d' same (h, hs) = (
    same (suc (length gs)) (omega arith) ∙ h,
    OnDisk-same gs d d' (λ j le. same j (omega arith)) hs,
  )

  Holds-same :
      (limit : ℕ) (gs : List (List StoredRecord)) (s : FileStorage F) (d d' : D)
      → ((j : ℕ) → l.contents d' j ≡ l.contents d j)
      → Holds limit gs s d
      → Holds limit gs s d'
  Holds-same limit gs s d d' same h = record {
    valid = record {
      current = h.valid.current;
      size = λ f o. h.valid.size f o ∙ ap length (sym (same s.segment_index));
    };
    limited = h.limited;
    index = h.index;
    opened = h.opened;
    files = OnDisk-same gs d d' (λ j le. same j) h.files;
  }

  -- A flush changes neither the storage nor the files, also when it fails.
  pub flush-Holds :
      (limit : ℕ) (gs : List (List StoredRecord)) (s : FileStorage F) (d : D)
      → Holds limit gs s d
      → let r = flush fs (s, d) in Holds limit gs r.1 r.2
  unfolding flush
  flush-Holds limit gs s d h = elim (Option-cases s.current_file) [
    | inl closed ↦ rw (closed, flush) h
    | inr (f, opened) ↦
        rw (opened, flush)
          (Holds-same limit gs s d (fs.flush d f).1 (λ j. l.contents-flush d f j) h)
  ]

  -- Every segment file reads as its group.
  abbrev pub ReadsBack : D → List (List StoredRecord) → Type 0
  ReadsBack d [] = Unit
  ReadsBack d (g ∷ gs) =
      (read_segment x.postcard x.crc32 x.cobs (l.contents d (suc (length gs)))
        ≡ ret (map (λ r. ok r) g))
      × ReadsBack d gs

  pub OnDisk-ReadsBack :
      (crcl : CrcLaws (2 ^ 32) x.crc32) (gs : List (List StoredRecord)) (d : D)
      → OnDisk d gs
      → All IsStoredRecord (in_order gs)
      → ReadsBack d gs
  unfolding in_order
  OnDisk-ReadsBack crcl [] d h good = tt
  OnDisk-ReadsBack crcl (g ∷ gs) d (h, hs) good = (
    ap (read_segment x.postcard x.crc32 x.cobs) h
        ∙ read_segment_exact x k pl crcl g (All-append_right IsStoredRecord (in_order gs) g good),
    OnDisk-ReadsBack crcl gs d hs (All-append_left IsStoredRecord (in_order gs) g good),
  )

  module _ (limit : ℕ) where
    abbrev Writes : List (List StoredRecord) → StoredRecord → FileStorage F → D → Type 0
    Writes gs r s d =
        let w = write fs (s, d) (stored x k pl r) in
        ((w.0 ≡ ok tt) × Holds limit (place x k pl limit gs r) w.1 w.2) ⊎ Fails l w

    opens :
        (gs : List (List StoredRecord)) (r : StoredRecord) (s : FileStorage F) (d : D)
        → Holds limit gs s d
        → place x k pl limit gs r ≡ (r ∷ []) ∷ gs
        → IsWritten l
            (s.segment_index + 1)
            []
            (stored x k pl r)
            s
            d
            (write fs (s, d) (stored x k pl r))
        → Writes gs r s d
    unfolding stored_all
    opens gs r s d h e w =
        let d' = (write fs (s, d) (stored x k pl r)).2 in
        inl (
          w.done,
          rw e (record {
            valid = w.valid;
            limited = w.limit ∙ h.limited;
            index = omega (arith, w.segment, h.index);
            opened = ap is_none w.opened.1;
            files = (
              ap (l.contents d') (omega (arith, h.index))
                  ∙ w.bytes_at.grown
                  ∙ sym (append-nil (stored x k pl r)),
              OnDisk-same gs d d' (λ j le. w.bytes_at.others j (λ e. omega (arith, e, h.index)))
                  h.files,
            );
          }),
        )

    grows :
        (g : List StoredRecord) (gs : List (List StoredRecord)) (r : StoredRecord)
        (s : FileStorage F) (d : D)
        → Holds limit (g ∷ gs) s d
        → place x k pl limit (g ∷ gs) r ≡ (g ++ (r ∷ [])) ∷ gs
        → IsWritten l s.segment_index
            (l.contents d s.segment_index)
            (stored x k pl r)
            s
            d
            (write fs (s, d) (stored x k pl r))
        → Writes (g ∷ gs) r s d
    unfolding stored_all
    grows g gs r s d h e w =
        let d' = (write fs (s, d) (stored x k pl r)).2 in
        let before : l.contents d s.segment_index ≡ stored_all x k pl g =
          ap (l.contents d) h.index ∙ h.files.0 in
        let whole : stored_all x k pl (g ++ (r ∷ [])) ≡ stored_all x k pl g ++ stored x k pl r =
          stored_all-append x k pl g (r ∷ [])
          ∙ ap (λ b. stored_all x k pl g ++ b) (append-nil (stored x k pl r)) in
        inl (
          w.done,
          rw e (record {
            valid = w.valid;
            limited = w.limit ∙ h.limited;
            index = w.segment ∙ h.index;
            opened = ap is_none w.opened.1;
            files = (
              ap (l.contents d') (sym h.index)
                  ∙ w.bytes_at.grown
                  ∙ ap (λ b. b ++ stored x k pl r) before
                  ∙ sym whole,
              OnDisk-same gs d d' (λ j le. w.bytes_at.others j (λ e. omega (arith, e, h.index)))
                  h.files.1,
            );
          }),
        )

    -- A record that is written joins the newest segment while that stays within the limit, and
    -- opens a new one otherwise.
    pub write-Holds :
        (gs : List (List StoredRecord)) (r : StoredRecord) (s : FileStorage F) (d : D)
        → Holds limit gs s d
        → length gs + 1 < 2 ^ 32
        → Writes gs r s d
    write-Holds [] r s d h small =
        elim (write_cases l s d (stored x k pl r) h.valid (omega (arith, h.index))) [
          | inl (_, (f, opened), _) ↦ cc (h.opened, ap is_none opened)
          | inr (inl (_, w)) ↦ opens [] r s d h (unfold place in refl) w
          | inr (inr fails) ↦ inr fails
        ]
    write-Holds (g ∷ gs) r s d h small =
        let size : length (l.contents d s.segment_index) ≡ length (stored_all x k pl g) =
          ap (λ i. length (l.contents d i)) h.index ∙ ap length h.files.0 in
        let test = length (stored_all x k pl g) + length (stored x k pl r) in
        elim (write_cases l s d (stored x k pl r) h.valid (omega (arith, h.index))) [
          | inl (room, _, w) ↦
              let fits : ltb limit test ≡ false =
                ge→ltb limit test (omega (arith, h.limited, size)) in
              grows g gs r s d h (unfold place in rw fits refl) w
          | inr (inl (inl closed, _)) ↦ cc (h.opened, ap is_none closed)
          | inr (inl (inr over, w)) ↦
              let full : ltb limit test ≡ true =
                lt→ltb limit test (omega (arith, h.limited, size)) in
              opens (g ∷ gs) r s d h (unfold place in rw full refl) w
          | inr (inr fails) ↦ inr fails
        ]
