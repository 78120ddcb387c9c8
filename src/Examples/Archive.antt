-- ===== src/Examples/Archive.antt =====
-- The theorem on the decoder behind `drain`, at a queue of one record.
use rust_telemetry_logger.Prelude.{
  ℕ, ◌≡◌, ◌∙◌, ap, sym, refl, arith, List, [], ◌∷◌, some, none, ok, ret, true, Result,
}
use rust_telemetry_logger.Decode.{Selection, json}
use rust_telemetry_logger.Decode.Main.{main}
use rust_telemetry_logger.Decode.Output.{Prints}
use rust_telemetry_logger.EndToEnd.Archive.{segments, main-drain}
use rust_telemetry_logger.Error.{Error}
use rust_telemetry_logger.Examples.Checksums.{crc32_iso_hdlc, crc32_iso_hdlc-laws}
use rust_telemetry_logger.Examples.Containers.{deque-laws}
use rust_telemetry_logger.Examples.Disk.{disk, disk_laws}
use rust_telemetry_logger.Examples.Serialiser.{serialiser, serialiser-laws}
use rust_telemetry_logger.Examples.Store.{loaded, loaded-IsStoredRecord}
use rust_telemetry_logger.Examples.Stuffing.{cobs}
use rust_telemetry_logger.Examples.Stuffing.Laws.{cobs-laws}
use rust_telemetry_logger.Examples.Values.{crates, stored_sensor}
use rust_telemetry_logger.External.Paths.{Paths}
use rust_telemetry_logger.FileStorage.{
  FileStorage, new, file_storage, write, needs_rotate, open_next_segment, create_segment, append,
  flush,
}
use rust_telemetry_logger.FileStorage.Names.{segment_name}
use rust_telemetry_logger.Pipeline.{Pipeline, drain}
use rust_telemetry_logger.Pipeline.Drain.{drained, drain-drained}
use rust_telemetry_logger.Record.{StoredRecord}

abbrev after : Result ℕ Error × Pipeline × (FileStorage ℕ × (ℕ → List ℕ))
after =
    drained crates cobs-laws serialiser-laws (deque-laws StoredRecord) 512 64 (file_storage disk)
      loaded (new disk 4096, λ j. []) (stored_sensor ∷ []) 0

stores_one : after.0 ≡ ok 1
unfolding drained file_storage write needs_rotate open_next_segment create_segment append flush
stores_one = refl

one_segment : after.2.0.segment_index ≡ 1
unfolding drained file_storage write needs_rotate open_next_segment create_segment append flush
one_segment = refl

-- The directory of the storage.
abbrev directory : Paths ℕ (Unit {0})
directory = record {
  read_dir = λ dir. ok (ok 1 ∷ []);
  file_name = λ path. some (segment_name path);
  sort = λ found. found;
  read = λ path. ok (after.2.1 path);
  render = λ header rows. [];
}

run :
    drain crates 512 64 (file_storage disk) loaded (new disk 4096, λ j. [])
    ≡ ret (ok 1, after.1, (after.2.0, after.2.1))
run =
    drain-drained crates cobs-laws serialiser-laws (deque-laws StoredRecord) 512 64
      (file_storage disk) loaded (new disk 4096, λ j. []) loaded-IsStoredRecord
    ∙ ap (λ r. ret (r, after.1, (after.2.0, after.2.1))) stores_one

sorted : 1 ∷ [] ≡ segments after.2.0.segment_index
unfolding segments
sorted = sym (ap segments one_segment)

abbrev pub everything : Selection
everything = record { since = none; min_severity = 0; packet_types = [] }

main-drain_example :
    Prints crates cobs-laws serialiser-laws directory
      (main directory serialiser crc32_iso_hdlc cobs (record {
        files = [];
        in_dir = some 0;
        format = json;
        selection = everything;
        stats = true;
      }))
      json
      everything
      (stored_sensor ∷ [])
main-drain_example =
    main-drain crates cobs-laws serialiser-laws directory (deque-laws StoredRecord)
      crc32_iso_hdlc-laws 512 64 disk_laws 4096 loaded after.1 (λ j. []) after.2.1 after.2.0 1 0 1
      [] json everything true loaded-IsStoredRecord (omega arith) run (λ j low high. refl)
      (refl, tt) refl sorted
