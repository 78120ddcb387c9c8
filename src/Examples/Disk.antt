-- ===== src/Examples/Disk.antt =====
-- A disk on which nothing fails, and a write that rotates on it.
use rust_telemetry_logger.Prelude.{
  ℕ, ◌+◌, ◌≤◌, ◌<◌, ◌≡◌, ◌≢◌, ◌⊎◌, refl, arith, eq→==, false, ◌==◌, if◌then◌else◌, List, [], ◌∷◌,
  ◌++◌, some, none, ok, err, ret, Result, All, length,
}
use rust_telemetry_logger.Error.{Error, storage as storage_failed}
use rust_telemetry_logger.Examples.Checksums.{crc32_iso_hdlc-laws}
use rust_telemetry_logger.Examples.Containers.{deque-laws}
use rust_telemetry_logger.Examples.Serialiser.{serialiser-laws}
use rust_telemetry_logger.Examples.Store.{loaded, loaded-IsStoredRecord}
use rust_telemetry_logger.Examples.Stuffing.Laws.{cobs-laws}
use rust_telemetry_logger.Examples.Values.{crates, stored_sensor}
use rust_telemetry_logger.External.Files.{Files, FilesLaws}
use rust_telemetry_logger.FileStorage.{FileStorage, new, write, file_storage}
use rust_telemetry_logger.FileStorage.Drain.{drain-ReadsBack}
use rust_telemetry_logger.FileStorage.Segments.{ReadsBack}
use rust_telemetry_logger.FileStorage.Groups.{in_order, IsFitting}
use rust_telemetry_logger.FileStorage.Calls.{IsFileStorage, IsWritten, Fails}
use rust_telemetry_logger.FileStorage.Rotation.{write_cases}
use rust_telemetry_logger.Pipeline.{Pipeline, drain}
use rust_telemetry_logger.Record.{StoredRecord}

-- An open file is its segment's index.
abbrev pub disk : Files (ℕ → List ℕ) ℕ (Unit {0})
disk = record {
  create = λ d i. (ok i, λ j. if j == i then [] else d j);
  write_all = λ d f bytes. (ok tt, λ j. if j == f then d j ++ bytes else d j);
  flush = λ d f. (ok tt, d);
  other = tt;
}

abbrev differs : (i j : ℕ) → j ≢ i → (j == i) ≡ false
differs i j ne = ground arith

abbrev pub disk_laws : FilesLaws disk
disk_laws = record {
  contents = λ d j. d j;
  index = λ f. f;
  create-index = λ d i f e. cc;
  contents-create = λ d i f e. rw (eq→== i i refl) refl;
  contents-write_all = λ d f bytes e. rw (eq→== f f refl) refl;
  create-other = λ d i j ne. rw (differs i j ne) refl;
  write_all-other = λ d f bytes j ne. rw (differs f j ne) refl;
  contents-flush = λ d f j. refl;
}

-- Three bytes in the segment 1, of at most four.
abbrev storage : FileStorage ℕ
storage = record {
  max_segment_bytes = 4;
  current_file = some 1;
  segment_index = 1;
  current_size = 3;
}

abbrev contents : ℕ → List ℕ
contents j = if j == 1 then 5 ∷ 6 ∷ 0 ∷ [] else []

storage-IsFileStorage : IsFileStorage disk_laws storage contents
storage-IsFileStorage = record { current = λ f o. cc; size = λ f o. refl }

write_cases_example :
    ((length (contents 1) + 2 ≤ 4)
      × ((f : ℕ) × (storage.current_file ≡ some f))
      × IsWritten disk_laws 1
          (contents 1)
          (7 ∷ 0 ∷ [])
          storage
          contents
          (write disk (storage, contents) (7 ∷ 0 ∷ [])))
    ⊎ (((storage.current_file ≡ none) ⊎ (4 < length (contents 1) + 2))
          × IsWritten disk_laws
              (1 + 1)
              []
              (7 ∷ 0 ∷ [])
              storage
              contents
              (write disk (storage, contents) (7 ∷ 0 ∷ []))
        ⊎ Fails disk_laws (write disk (storage, contents) (7 ∷ 0 ∷ [])))
write_cases_example =
    write_cases disk_laws storage contents (7 ∷ 0 ∷ []) storage-IsFileStorage (omega arith)

drain-ReadsBack_example :
    (result : Result ℕ Error) × (p' : Pipeline) × (s' : FileStorage ℕ) × (d' : ℕ → List ℕ) × (drain
        crates 512 64
        (file_storage disk)
        loaded
        (new disk 4096, contents)
      ≡ ret (result, p', (s', d')))
    × (((result ≡ ok 1)
          × (gs : List (List StoredRecord)) × (in_order gs ≡ stored_sensor ∷ [])
          × All (IsFitting crates cobs-laws serialiser-laws 4096) gs
          × (s'.segment_index ≡ length gs)
          × ReadsBack crates cobs-laws serialiser-laws disk_laws d' gs)
        ⊎ (result ≡ err storage_failed))
drain-ReadsBack_example =
    drain-ReadsBack crates cobs-laws serialiser-laws (deque-laws StoredRecord) 512 64 disk_laws 4096
      crc32_iso_hdlc-laws loaded contents loaded-IsStoredRecord (omega arith)
