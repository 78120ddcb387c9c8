-- ===== src/Examples/Logging.antt =====
-- The theorems on the host over segment files, at a source of one frame.
use rust_telemetry_logger.Prelude.{
  ℕ, ◌≡◌, ◌<◌, ◌⊎◌, ◌∙◌, ap, sym, refl, subst, arith, List, [], ◌∷◌, append-nil, some, ok, ret,
  true, Result, length, All, IsU8,
}
use rust_telemetry_logger.Decode.{json}
use rust_telemetry_logger.Error.{Error}
use rust_telemetry_logger.Decode.Main.{main}
use rust_telemetry_logger.Decode.Output.{Prints}
use rust_telemetry_logger.EndToEnd.Archive.{segments}
use rust_telemetry_logger.EndToEnd.Logger.{run_loop-ReadsBack, main-run_loop}
use rust_telemetry_logger.Examples.Archive.{everything}
use rust_telemetry_logger.Examples.Checksums.{
  crc16_ibm_sdlc, crc16_ibm_sdlc-laws, crc32_iso_hdlc, crc32_iso_hdlc-laws,
}
use rust_telemetry_logger.Examples.Containers.{deque-laws, byte_vec-laws}
use rust_telemetry_logger.Examples.Disk.{disk, disk_laws}
use rust_telemetry_logger.Examples.Hosting.{chunks, never, state_of, late-IsU8}
use rust_telemetry_logger.Examples.Serialiser.{serialiser, serialiser-laws}
use rust_telemetry_logger.Examples.Stuffing.{cobs}
use rust_telemetry_logger.Examples.Stuffing.Laws.{cobs-laws}
use rust_telemetry_logger.Examples.Values.{
  crates, sensor, sensor-IsDeliverable, policy, ticks, ticks-IsU64,
}
use rust_telemetry_logger.External.Paths.{Paths}
use rust_telemetry_logger.FileStorage.{
  FileStorage, new, file_storage, write, needs_rotate, open_next_segment, create_segment, append,
  flush,
}
use rust_telemetry_logger.FileStorage.Groups.{in_order, IsFitting}
use rust_telemetry_logger.FileStorage.Names.{segment_name}
use rust_telemetry_logger.FileStorage.Reliable.{IsReliable}
use rust_telemetry_logger.FileStorage.Segments.{ReadsBack}
use rust_telemetry_logger.Framer.Invariant.{IsFramer-new}
use rust_telemetry_logger.Framer.RoundTrip.{wire, wires}
use rust_telemetry_logger.Host.{HostState, HostError, print_round, end_loop, run_loop}
use rust_telemetry_logger.Host.Batches.{wires_cons}
use rust_telemetry_logger.Host.Follows.{Accounts}
use rust_telemetry_logger.Host.Loop.{
  IsFinite, given, print_round_keeps, settled, round-settled, run_loop_gives, run_loop_ends,
  end_loop-pipeline,
}
use rust_telemetry_logger.Pipeline
use rust_telemetry_logger.Pipeline.{Pipeline, ingest_from}
use rust_telemetry_logger.Pipeline.Delivery.{arrivals, ingest_from-wires}
use rust_telemetry_logger.Pipeline.Drain.{drained}
use rust_telemetry_logger.Pipeline.Stored.{ingest_from-failures, arrivals-IsStoredRecord}
use rust_telemetry_logger.Record.{StoredRecord, IsStoredRecord}

abbrev Disk : Type 0
Disk = FileStorage ℕ × (ℕ → List ℕ)

abbrev chunk : List ℕ
chunk = wires crc16_ibm_sdlc cobs-laws (sensor ∷ [])

chunk-IsU8 : All IsU8 chunk
unfolding wires
chunk-IsU8 = subst (All IsU8) (sym (append-nil (wire crc16_ibm_sdlc cobs-laws sensor))) late-IsU8

abbrev archiving : HostState (List (List ℕ)) Disk
archiving = state_of (chunk ∷ []) (new disk 4096, λ j. [])

first : (b : ℕ) × (bs : List ℕ) × (chunk ≡ b ∷ bs)
first =
    wires_cons crates cobs-laws serialiser-laws (deque-laws StoredRecord) chunks ticks 10 sensor []

archiving-IsFinite : IsFinite chunks 1 archiving.source
archiving-IsFinite =
    IsFinite.gives [] first.0 first.1 (ap (λ c. (ok c, [])) first.2)
      (subst (All IsU8) first.2 chunk-IsU8) (IsFinite.ends [] refl)

run_loop-ReadsBack_example :
    (result : Result (Unit {0}) (HostError (Unit {0}) (Unit {0}))) × (h' : HostState
      (List (List ℕ))
      Disk)
    × (run_loop crates chunks (file_storage disk) ticks 10 never 2 archiving ≡ ret (result, h'))
    × (((0 < h'.pipeline.stats.write_fail) × (¬ IsReliable disk))
        ⊎ ((gs : List (List StoredRecord)) × All
              (IsFitting crates cobs-laws serialiser-laws 4096)
              gs
            × Accounts crates policy ticks 0
                (given chunks archiving-IsFinite)
                (in_order gs)
                h'.pipeline
            × (h'.pipeline.stats.ok ≡ length (in_order gs))
            × (h'.storage.0.segment_index ≡ length gs)
            × ReadsBack crates cobs-laws serialiser-laws disk_laws h'.storage.1 gs))
run_loop-ReadsBack_example =
    run_loop-ReadsBack crates cobs-laws serialiser-laws (deque-laws StoredRecord) byte_vec-laws
      crc32_iso_hdlc-laws disk_laws chunks ticks 10 4096 never policy 1 2 archiving (λ j. [])
      ticks-IsU64 archiving-IsFinite (omega arith) (omega arith) refl refl

-- The pipeline behind `ingest`.
ingested :
    (p : Pipeline) × (ingest_from crates 512 64 0 ticks (Pipeline.new policy) chunk ≡ ret p)
    × (p.ringbuf.queue ≡ arrivals crates cobs-laws 512 64 0 ticks (sensor ∷ []))
    × (p.stats.write_fail ≡ 0)
ingested =
    let (p, run, queue, _, _, _, _) =
      ingest_from-wires crates cobs-laws 512 64 crc16_ibm_sdlc-laws byte_vec-laws
        (deque-laws StoredRecord) (omega arith) (sensor ∷ []) 0 ticks (Pipeline.new policy)
        (sensor-IsDeliverable, tt) (tt, tt) (omega arith) refl refl in
    let (p', run', _, failures) =
      ingest_from-failures crates (deque-laws StoredRecord) 512 64 (omega arith) byte_vec-laws
        cobs-laws 0 ticks chunk (Pipeline.new policy) ticks-IsU64 chunk-IsU8
        (record { framer = IsFramer-new 512; queue = tt }) in
    let same : p' ≡ p = cc (run, run') in
    (p, run, queue, subst (λ q. q.stats.write_fail ≡ 0) same failures)

abbrev received : HostState (List (List ℕ)) Disk
received = state_of [] (new disk 4096, λ j. [])

-- Behind `drain`, behind the round, and behind the loop.
abbrev stores : HostState (List (List ℕ)) Disk
stores =
    settled crates cobs-laws serialiser-laws (deque-laws StoredRecord) chunks (file_storage disk)
      ticks 10 received (first.0 ∷ first.1) ingested.0

abbrev prints : HostState (List (List ℕ)) Disk
prints = print_round crates chunks (file_storage disk) ticks 10 stores

abbrev ended : Result (Unit {0}) (HostError (Unit {0}) (Unit {0})) × HostState (List (List ℕ)) Disk
ended = end_loop crates chunks (file_storage disk) ticks 10 (record prints { source = [] })

kept :
    (prints.source ≡ [])
    × (prints.pipeline ≡ stores.pipeline)
    × (prints.storage ≡ stores.storage)
    × (prints.instant ≡ stores.instant)
kept =
    print_round_keeps crates cobs-laws serialiser-laws (deque-laws StoredRecord) chunks
      (file_storage disk) ticks 10 stores

queued_records : All IsStoredRecord ingested.0.ringbuf.queue
queued_records = subst (All IsStoredRecord) (sym ingested.2) (
    arrivals-IsStoredRecord crates cobs-laws 512 64 policy (sensor ∷ []) 0 ticks ticks-IsU64
      (sensor-IsDeliverable, tt))

run : run_loop crates chunks (file_storage disk) ticks 10 never 2 archiving ≡ ret (ended.0, ended.1)
run =
    run_loop_gives crates cobs-laws serialiser-laws (deque-laws StoredRecord) chunks
      (file_storage disk) ticks 10 never 1 first.0 first.1 archiving prints []
      (ap (λ c. (ok c, [])) first.2)
      (round-settled crates cobs-laws serialiser-laws (deque-laws StoredRecord) chunks
        (file_storage disk) ticks 10 received (first.0 ∷ first.1) ingested.0
        (subst (λ c. ingest_from crates 512 64 0 ticks (Pipeline.new policy) c ≡ ret ingested.0)
          first.2 ingested.1)
        queued_records)
    ∙ run_loop_ends crates cobs-laws serialiser-laws (deque-laws StoredRecord) chunks
        (file_storage disk) ticks 10 never 0 prints [] (ap (λ s. chunks.read s 4096) kept.0)

-- What `drain` makes of a queue.
abbrev drains : List StoredRecord → Result ℕ Error × Pipeline × Disk
drains q =
    drained crates cobs-laws serialiser-laws (deque-laws StoredRecord) 512 64 (file_storage disk)
      ingested.0 (new disk 4096, λ j. []) q 0

abbrev arrived_queue : List StoredRecord
arrived_queue = arrivals crates cobs-laws 512 64 0 ticks (sensor ∷ [])

drains_one : (drains arrived_queue).1.stats.write_fail ≡ 0
unfolding drained arrivals file_storage write needs_rotate open_next_segment create_segment append
    flush
drains_one = ingested.3

one_segment :
    (end_loop crates chunks
      (file_storage disk)
      ticks
      10
      (record prints { source = []; storage = (drains arrived_queue).2 })).1.storage.0.segment_index
    ≡ 1
unfolding end_loop drained arrivals file_storage write needs_rotate open_next_segment create_segment
    append flush
one_segment = refl

unfailed : ended.1.pipeline.stats.write_fail ≡ 0
unfailed =
    ap (λ p. p.stats.write_fail)
      (end_loop-pipeline crates cobs-laws serialiser-laws (deque-laws StoredRecord) chunks
          (file_storage disk) ticks 10 (record prints { source = [] })
        ∙ kept.1
        ∙ ap (λ q. (drains q).1) ingested.2)
    ∙ drains_one

one_file : ended.1.storage.0.segment_index ≡ 1
one_file =
    ap
      (λ t.
        (end_loop crates chunks (file_storage disk) ticks 10
          (record prints { source = []; storage = t })).1.storage.0.segment_index)
      (kept.2 ∙ ap (λ q. (drains q).2) ingested.2)
    ∙ one_segment

-- The directory of the storage.
abbrev listing : Paths ℕ (Unit {0})
listing = record {
  read_dir = λ dir. ok (ok 1 ∷ []);
  file_name = λ path. some (segment_name path);
  sort = λ found. found;
  read = λ path. ok (ended.1.storage.1 path);
  render = λ header rows. [];
}

sorted : 1 ∷ [] ≡ segments ended.1.storage.0.segment_index
unfolding segments
sorted = sym (ap segments one_file)

main-run_loop_example :
    (rs : List StoredRecord) × Accounts crates policy ticks 0
      (given chunks archiving-IsFinite)
      rs
      ended.1.pipeline
    × (ended.1.pipeline.stats.ok ≡ length rs)
    × Prints crates cobs-laws serialiser-laws listing
        (main listing serialiser crc32_iso_hdlc cobs (record {
          files = [];
          in_dir = some 0;
          format = json;
          selection = everything;
          stats = true;
        }))
        json
        everything
        rs
main-run_loop_example =
    main-run_loop crates cobs-laws serialiser-laws (deque-laws StoredRecord) byte_vec-laws
      crc32_iso_hdlc-laws disk_laws chunks ticks 10 4096 never policy listing 1 2 archiving ended.1
      (λ j. []) ended.0 0 1 [] json everything true ticks-IsU64 archiving-IsFinite (omega arith)
      (omega arith) refl refl run unfailed (λ j low high. refl) (refl, tt) refl sorted
