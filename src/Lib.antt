-- ===== src/Lib.antt =====
-- A verification library for the telemetry logger: the portable core that turns bytes of a serial
-- line into stored records, and the segment files of the host.
--
-- The parts and how they interact. Bytes go one by one into the framer, which cuts them at zero
-- bytes, undoes COBS and checks the structure (crates/telemetry-core/src/framer.rs: Framer). A
-- complete frame goes to the validator, which checks its CRC-16, type, severity, length and
-- sequence number (validator.rs: Validator), then to the filter (filter.rs: Filter) and, stamped
-- with the clock, into the ring buffer (ringbuf.rs: RingBuf). `Pipeline::ingest` composes these
-- and counts every outcome (pipeline.rs, stats.rs, config.rs: Pipeline, Stats). `Pipeline::drain`
-- pops the records, encodes each one (record.rs: Record) and writes it to a storage backend
-- (traits.rs: Traits). On the host that is the rotating segment writer
-- (crates/telemetry-std/src/lib.rs: FileStorage), and a segment is read by `read_segment` (the
-- same file: Segment). EndToEnd puts `ingest`, `drain` and `read_segment` together. Frame has the
-- frames and their encoder (frame.rs), Protocol the constants (protocol.rs), Error the enums of
-- error.rs.
--
-- How the code corresponds. A struct is a record, an enum a data type, and a method with `&mut
-- self` is a function that returns the new state beside its result. A buffer is the list of its
-- bytes, and a method that writes to a buffer returns it. Code that may panic (an index, a slice,
-- a copy) is in the monad `Run` of Prelude/Runs, with the outcomes `ret`, `panic` and `diverge`.
-- Machine integers are natural numbers with the wrap-around or saturation written out; `+=` on a
-- counter is addition modulo 2 ^ 64, as in a build without overflow checks. The capacities
-- MAX_FRAME and QUEUE_DEPTH, const generics in the code, are parameters. A clock gives a reading
-- for each instant, and in `ingest` the instant of a byte is its place.
--
-- The crates that the code calls are parameters: External has a record of the operations of
-- `cobs`, `crc`, `heapless`, `postcard` and `std::fs` that are used, and a record of the laws that
-- the proofs rely on. Examples instantiates the parameters with concrete functions, proves the
-- laws for them and runs the theorems at concrete values: COBS with blocks of 254 bytes, both CRCs
-- with their documented check values, and a serialisation of fixed width in the place of
-- postcard's.
--
-- Bounds and fuel. The loop of `drain` runs on fuel, one more than the records in the queue, which
-- is enough because every round pops one. Every other loop of the core is a recursion on a list.
-- Queue depths are below 2 ^ 32, as the ring buffer stores its length in a u32.
--
-- The binaries around the core. SystemClock has the clock of the host. Host has the program of
-- crates/telemetry-host/src/main.rs: the filter of the command line, the opening of the input and
-- the read loop. A source need not end, so the loop runs on fuel that its caller chooses; for a
-- source that ends, more than its reads that give bytes are enough. Decode has the program of
-- tools/telemetry-decode/src/main.rs: the search for segment files, the filter, the counters, the
-- texts of the three formats and of the statistics. Generator has the program of
-- tools/packet-generator/src/main.rs: the corruption modes, the sinks and the loop over the
-- frames, with its random numbers as a parameter. EndToEnd/Generated joins the generator to the
-- host, EndToEnd/Archive the segment writer to the decoder, and EndToEnd/Logger the host, its
-- segment files on a disk that may fail, and the decoder. Which frames `ingest` queues is
-- described in Pipeline/History without the code of the validator and the filter, and Host/Follows
-- ties it to the bytes of the source. Texts are lists of their code points. What the programs ask
-- of the operating system and of `comfy_table` are parameters: External/Inputs for the host,
-- External/Sinks for the generator, External/Paths for the decoder.
--
-- Not modelled: the parsing of command lines by `clap`, whose result is a record; the texts of
-- errors and warnings on the standard error, of which the exit status remains; the `Debug` texts
-- and the texts of `FileStorageError`; and the firmware and Linux stubs, which are empty. The file
-- system of the segment writer knows a file by the index of its segment.

pub mod Prelude
pub mod External
pub mod Protocol
pub mod Error
pub mod Frame
pub mod Framer
pub mod Validator
pub mod Filter
pub mod Stats
pub mod Record
pub mod RingBuf
pub mod Traits
pub mod Pipeline
pub mod SystemClock
pub mod FileStorage
pub mod Segment
pub mod Decode
pub mod Host
pub mod Generator
pub mod EndToEnd
pub mod Examples
