-- ===== src/EndToEnd/Archive.antt =====
-- What `drain` stores in segment files (crates/telemetry-std/src/lib.rs), the decoder of their
-- directory prints (tools/telemetry-decode/src/main.rs).
use mathlib.Core.List.{flatten}
use rust_telemetry_logger.Prelude.{
  ℕ, zero, suc, ◌<◌, ◌≤◌, ◌^◌, ◌≡◌, ◌∙◌, ap, sym, refl, subst, arith, List, [], ◌∷◌, ◌++◌,
  append_assoc, flatten-append, append-nil, true, some, map, length, inl, inr, All, All-append_left,
  All-append_right, Bool, ok, ret,
}
use rust_telemetry_logger.Decode.{Format, Selection}
use rust_telemetry_logger.Decode.Directory.{is_segment, collect, collect_segments_in_dir}
use rust_telemetry_logger.Decode.Main.{Args, decode_paths, main}
use rust_telemetry_logger.Decode.Output.{IsArchive, Prints, decode_paths-archive}
use rust_telemetry_logger.External.Cobs.{CobsLaws}
use rust_telemetry_logger.External.Crc.{CrcLaws}
use rust_telemetry_logger.External.Files.{Files, FilesLaws}
use rust_telemetry_logger.External.Heapless.{DequeLaws}
use rust_telemetry_logger.External.Paths.{Paths}
use rust_telemetry_logger.FileStorage
use rust_telemetry_logger.FileStorage.{FileStorage, file_storage}
use rust_telemetry_logger.FileStorage.Drain.{drain-Holds}
use rust_telemetry_logger.FileStorage.Groups.{in_order, in_order-places, places}
use rust_telemetry_logger.FileStorage.Names.{segment_name, segment_name-is_segment_name}
use rust_telemetry_logger.FileStorage.Segments.{OnDisk, Holds, new-Holds}
use rust_telemetry_logger.Pipeline.{Crates, Pipeline, drain}
use rust_telemetry_logger.Record.{StoredRecord, IsStoredRecord}
use rust_telemetry_logger.Record.Format.{PostcardLaws}

-- The first segments, in order: a path is the index of its segment.
unfoldable pub segments : ℕ → List ℕ
segments zero = []
segments (suc n) = segments n ++ (suc n ∷ [])

-- The groups, the oldest first.
unfoldable oldest_first : List (List StoredRecord) → List (List StoredRecord)
oldest_first [] = []
oldest_first (g ∷ gs) = oldest_first gs ++ (g ∷ [])

flatten-oldest_first : (gs : List (List StoredRecord)) → flatten (oldest_first gs) ≡ in_order gs
unfolding flatten oldest_first in_order
flatten-oldest_first [] = refl
flatten-oldest_first (g ∷ gs) =
    flatten-append (oldest_first gs) (g ∷ [])
    ∙ ap (λ l. l ++ (g ++ [])) (flatten-oldest_first gs)
    ∙ ap (λ l. in_order gs ++ l) (append-nil g)

module _ {P : Type 0} (paths : Paths ℕ P) where
  -- The file of the segment `i` has the name that the segment writer gives it.
  abbrev pub IsNamed : ℕ → Type 0
  IsNamed i = paths.file_name i ≡ some (segment_name i)

  is_segment-named : (i : ℕ) → IsNamed i → is_segment paths i ≡ true
  unfolding is_segment
  is_segment-named i named = rw (named, is_segment) (segment_name-is_segment_name i).0

  collect-segments :
      (found acc : List ℕ)
      → All IsNamed found
      → collect paths acc (map (λ i. ok i) found) ≡ ok (acc ++ found)
  unfolding collect
  collect-segments [] acc named = ap ok (sym (append-nil acc))
  collect-segments (i ∷ found) acc (named, rest) =
      rw (is_segment-named i named, collect)
        (collect-segments found (acc ++ (i ∷ [])) rest ∙ ap ok (append_assoc acc (i ∷ []) found))

  lists :
      (dir : ℕ) (found : List ℕ)
      → All IsNamed found
      → paths.read_dir dir ≡ ok (map (λ i. ok i) found)
      → collect_segments_in_dir paths dir ≡ ok found
  unfolding collect_segments_in_dir
  lists dir found named entries =
      rw (entries, collect_segments_in_dir) (collect-segments found [] named)

module _ (x : Crates) (k : CobsLaws x.cobs) (pl : PostcardLaws x.postcard) {P : Type 0}
    (paths : Paths ℕ P) where
  IsArchive-append :
      (is js : List ℕ) (gs hs : List (List StoredRecord))
      → IsArchive x k pl paths is gs
      → IsArchive x k pl paths js hs
      → IsArchive x k pl paths (is ++ js) (gs ++ hs)
  IsArchive-append [] js [] hs h h' = h'
  IsArchive-append [] js (g ∷ gs) hs h h' = absurd h
  IsArchive-append (i ∷ is) js [] hs h h' = absurd h
  IsArchive-append (i ∷ is) js (g ∷ gs) hs (contents, good, h) h' =
      (contents, good, IsArchive-append is js gs hs h h')

  module _ {D F E : Type 0} {fs : Files D F E} (l : FilesLaws fs) (d : D) (index : ℕ)
      (reads : (i : ℕ) → 1 ≤ i → i ≤ index → paths.read i ≡ ok (l.contents d i)) where
    OnDisk-IsArchive :
        (gs : List (List StoredRecord))
        → length gs ≤ index
        → OnDisk x k pl l d gs
        → All IsStoredRecord (in_order gs)
        → IsArchive x k pl paths (segments (length gs)) (oldest_first gs)
    unfolding segments oldest_first in_order
    OnDisk-IsArchive [] few h good = tt
    OnDisk-IsArchive (g ∷ gs) few (h, hs) good =
        IsArchive-append (segments (length gs)) (suc (length gs) ∷ []) (oldest_first gs) (g ∷ [])
          (OnDisk-IsArchive gs (omega arith) hs
            (All-append_left IsStoredRecord (in_order gs) g good))
          (
            reads (suc (length gs)) (omega arith) (omega arith) ∙ ap ok h,
            All-append_right IsStoredRecord (in_order gs) g good,
            tt,
          )

  module _ (dl : DequeLaws x.deque) (crcl : CrcLaws (2 ^ 32) x.crc32) (MAX_FRAME QUEUE_DEPTH : ℕ)
      {D F E : Type 0} {fs : Files D F E} (l : FilesLaws fs) (limit : ℕ) where
    -- The run of `drain` that stored everything.
    drain-stored :
        (p p' : Pipeline) (d d' : D) (s' : FileStorage F) (n : ℕ)
        → All IsStoredRecord p.ringbuf.queue
        → length p.ringbuf.queue < 2 ^ 32
        → drain x MAX_FRAME QUEUE_DEPTH (file_storage fs) p (FileStorage.new fs limit, d)
          ≡ ret (ok n, p', (s', d'))
        → Holds x k pl l limit (places x k pl limit [] p.ringbuf.queue) s' d'
    drain-stored p p' d d' s' n good small run =
        let (result, q, s, e, run', outcome) =
          drain-Holds x k pl dl MAX_FRAME QUEUE_DEPTH l limit [] p (FileStorage.new fs limit) d
            (new-Holds x k pl l limit d) good (omega arith) in
        elim outcome [
          | inr fails ↦ cc (run, run', fails)
          | inl (_, h) ↦
              let same : (s, e) ≡ (s', d') = cc (run, run') in
              subst {A = FileStorage F × D}
                (λ t. Holds x k pl l limit (places x k pl limit [] p.ringbuf.queue) t.0 t.1) same h
        ]

    -- The decoder of a directory that lists the segment files of these groups, in some order.
    pub main-Holds :
        (gs : List (List StoredRecord)) (s' : FileStorage F) (d' : D) (dir i : ℕ) (found : List ℕ)
        (format : Format) (selection : Selection) (stats : Bool)
        → Holds x k pl l limit gs s' d'
        → All IsStoredRecord (in_order gs)
        → length (in_order gs) < 2 ^ 64
        → ((j : ℕ) → 1 ≤ j → j ≤ s'.segment_index → paths.read j ≡ ok (l.contents d' j))
        → All (IsNamed paths) (i ∷ found)
        → paths.read_dir dir ≡ ok (map (λ j. ok j) (i ∷ found))
        → paths.sort (i ∷ found) ≡ segments s'.segment_index
        → Prints x k pl paths
            (main paths x.postcard x.crc32 x.cobs (record {
              files = [];
              in_dir = some dir;
              format = format;
              selection = selection;
              stats = stats;
            }))
            format
            selection
            (in_order gs)
    unfolding main
    main-Holds gs s' d' dir i found format selection stats h good small reads named entries sorted =
        let archive : IsArchive x k pl paths (paths.sort (i ∷ found)) (oldest_first gs) =
          subst (λ js. IsArchive x k pl paths js (oldest_first gs))
            (ap segments (sym h.index) ∙ sym sorted)
            (OnDisk-IsArchive l d' s'.segment_index reads gs (omega (arith, h.index)) h.files
              good) in
        let whole : flatten (oldest_first gs) ≡ in_order gs = flatten-oldest_first gs in
        let args : Args ℕ = record {
          files = [];
          in_dir = some dir;
          format = format;
          selection = selection;
          stats = stats;
        } in
        let start : main paths x.postcard x.crc32 x.cobs args
            ≡ decode_paths paths x.postcard x.crc32 x.cobs args (i ∷ found) =
          rw (lists paths dir (i ∷ found) named entries, main) refl in
        let printed =
          decode_paths-archive x k pl paths crcl args i found (oldest_first gs) archive
            (omega (arith, ap length whole)) in
        subst (λ run. Prints x k pl paths run format selection (in_order gs)) (sym start)
          (subst
            (Prints x k pl paths (decode_paths paths x.postcard x.crc32 x.cobs args (i ∷ found))
              format selection)
            whole printed)

    -- A queue of well-formed records, at least one and fewer than 2 ^ 32, that `drain` has stored
    -- in new segment files: the decoder of a directory that lists exactly these files exits with
    -- status 0 and prints, in its format, the records of the queue that pass the filter, in order.
    -- The entries come in any order that sorting brings into the order of the segments, each has the
    -- file name that the segment writer gives it, and reading the file of a segment gives what the
    -- disk holds.
    pub main-drain :
        (p p' : Pipeline) (d d' : D) (s' : FileStorage F) (n dir i : ℕ) (found : List ℕ)
        (format : Format) (selection : Selection) (stats : Bool)
        → All IsStoredRecord p.ringbuf.queue
        → length p.ringbuf.queue < 2 ^ 32
        → drain x MAX_FRAME QUEUE_DEPTH (file_storage fs) p (FileStorage.new fs limit, d)
          ≡ ret (ok n, p', (s', d'))
        → ((j : ℕ) → 1 ≤ j → j ≤ s'.segment_index → paths.read j ≡ ok (l.contents d' j))
        → All (IsNamed paths) (i ∷ found)
        → paths.read_dir dir ≡ ok (map (λ j. ok j) (i ∷ found))
        → paths.sort (i ∷ found) ≡ segments s'.segment_index
        → Prints x k pl paths
            (main paths x.postcard x.crc32 x.cobs (record {
              files = [];
              in_dir = some dir;
              format = format;
              selection = selection;
              stats = stats;
            }))
            format
            selection
            p.ringbuf.queue
    main-drain p p' d d' s' n dir i found format selection stats good small run reads named entries
          sorted =
        let q = p.ringbuf.queue in
        let gs = places x k pl limit [] q in
        let ordered : in_order gs ≡ q = unfold in_order in in_order-places x k pl limit q [] in
        subst
          (Prints x k pl paths
            (main paths x.postcard x.crc32 x.cobs (record {
              files = [];
              in_dir = some dir;
              format = format;
              selection = selection;
              stats = stats;
            }))
            format selection)
          ordered
          (main-Holds gs s' d' dir i found format selection stats
            (drain-stored p p' d d' s' n good small run)
            (subst (All IsStoredRecord) (sym ordered) good) (omega (arith, ap length ordered)) reads
            named entries sorted)
