-- ===== src/Pipeline/History.antt =====
-- Which frames of the framer's outputs `ingest` queues, described without the validator's code.
use rust_telemetry_logger.Prelude.{
  ℕ, ◌+◌, ◌≡◌, ◌≤◌, ◌<◌, ◌≢◌, List, [], ◌∷◌, ◌++◌, Option, none, some, length, All, All-append,
  IsU64,
}
use rust_telemetry_logger.External.Crc.{Crc}
use rust_telemetry_logger.Filter.{FilterConfig}
use rust_telemetry_logger.Filter.Allow.{IsListed}
use rust_telemetry_logger.Frame.{Frame, IsFrame}
use rust_telemetry_logger.Framer.{FrameOutput, complete}
use rust_telemetry_logger.Pipeline.{record_of}
use rust_telemetry_logger.Record.{StoredRecord, v1, IsStoredRecord}
use rust_telemetry_logger.Traits.{Clock}
use rust_telemetry_logger.Validator.Accept.{IsNext, IsSound}

pub record_of-IsStoredRecord :
    (now : ℕ) (f : Frame) → IsU64 now → IsFrame f → IsStoredRecord (record_of now f)
unfolding record_of
record_of-IsStoredRecord now f c h = record {
  timestamp_us = c;
  sequence = h.sequence;
  packet_type = h.packet_type;
  severity = h.severity;
  payload = h.payload;
  fits = h.fits;
}

-- What is stored of a frame: its fields and the time.
abbrev pub entry : ℕ → Frame → StoredRecord
entry now f = v1 (record {
  timestamp_us = now;
  sequence = f.header.sequence;
  packet_type = f.header.packet_type;
  severity = f.header.severity;
  payload = f.payload;
})

module _ (crc16 : Crc) (filter : FilterConfig) (clock : Clock) (N start : ℕ) where
  -- The severity is at least the minimum, and the type is listed or there is no list.
  abbrev pub IsAllowed : Frame → Type 0
  IsAllowed f =
      (filter.min_severity ≤ f.header.severity)
      × IsListed filter.type_allowlist f.header.packet_type

  -- The outputs so far, one for each byte from the instant `start` on; the records of the frames
  -- that were queued, in order; how many frames the full queue dropped; the last sequence number; and
  -- how many records wait in the queue of `N`, which a drain may empty at any time. Of the complete
  -- frames only sound ones count for the sequence, and a sound frame that is the next one and that
  -- the filter lets through is queued, or dropped exactly when `N` records wait; no other frame is.
  pub data History : List FrameOutput → List StoredRecord → ℕ → Option ℕ → ℕ → Type 0 where
    no_outputs : History [] [] 0 none 0
    no_frame :
        {os : List FrameOutput} {rs : List StoredRecord} {dropped : ℕ} {last : Option ℕ}
        {waiting : ℕ} (o : FrameOutput)
        → ((f : Frame) → o ≢ complete f)
        → History os rs dropped last waiting
        → History (os ++ (o ∷ [])) rs dropped last waiting
    unsound :
        {os : List FrameOutput} {rs : List StoredRecord} {dropped : ℕ} {last : Option ℕ}
        {waiting : ℕ} (f : Frame)
        → ¬ IsSound crc16 f
        → History os rs dropped last waiting
        → History (os ++ (complete f ∷ [])) rs dropped last waiting
    gap :
        {os : List FrameOutput} {rs : List StoredRecord} {dropped : ℕ} {last : Option ℕ}
        {waiting : ℕ} (f : Frame)
        → IsSound crc16 f
        → ¬ IsNext last f.header.sequence
        → History os rs dropped last waiting
        → History (os ++ (complete f ∷ [])) rs dropped (some f.header.sequence) waiting
    stopped :
        {os : List FrameOutput} {rs : List StoredRecord} {dropped : ℕ} {last : Option ℕ}
        {waiting : ℕ} (f : Frame)
        → IsSound crc16 f
        → IsNext last f.header.sequence
        → ¬ IsAllowed f
        → History os rs dropped last waiting
        → History (os ++ (complete f ∷ [])) rs dropped (some f.header.sequence) waiting
    no_room :
        {os : List FrameOutput} {rs : List StoredRecord} {dropped : ℕ} {last : Option ℕ}
        {waiting : ℕ} (f : Frame)
        → IsSound crc16 f
        → IsNext last f.header.sequence
        → IsAllowed f
        → waiting ≡ N
        → History os rs dropped last waiting
        → History (os ++ (complete f ∷ [])) rs (dropped + 1) (some f.header.sequence) waiting
    queued :
        {os : List FrameOutput} {rs : List StoredRecord} {dropped : ℕ} {last : Option ℕ}
        {waiting : ℕ} (f : Frame)
        → IsFrame f
        → IsSound crc16 f
        → IsNext last f.header.sequence
        → IsAllowed f
        → waiting < N
        → History os rs dropped last waiting
        → History
            (os ++ (complete f ∷ []))
            (rs ++ (entry (clock.now (start + length os)) f ∷ []))
            dropped
            (some f.header.sequence)
            (waiting + 1)
    emptied :
        {os : List FrameOutput} {rs : List StoredRecord} {dropped : ℕ} {last : Option ℕ}
        {waiting : ℕ}
        → History os rs dropped last waiting
        → History os rs dropped last 0

  pub History-IsStoredRecord :
      {os : List FrameOutput} {rs : List StoredRecord} {dropped : ℕ} {last : Option ℕ} {waiting : ℕ}
      → ((n : ℕ) → IsU64 (clock.now n))
      → History os rs dropped last waiting
      → All IsStoredRecord rs
  unfolding record_of
  History-IsStoredRecord c History.no_outputs = tt
  History-IsStoredRecord c (History.no_frame o other h) = History-IsStoredRecord c h
  History-IsStoredRecord c (History.unsound f bad h) = History-IsStoredRecord c h
  History-IsStoredRecord c (History.gap f good skips h) = History-IsStoredRecord c h
  History-IsStoredRecord c (History.stopped f good follows out h) = History-IsStoredRecord c h
  History-IsStoredRecord c (History.no_room f good follows in_filter full h) =
      History-IsStoredRecord c h
  History-IsStoredRecord c (History.queued {os} {rs} f valid good follows in_filter room h) =
      All-append IsStoredRecord rs (entry (clock.now (start + length os)) f ∷ [])
        (History-IsStoredRecord c h)
        (
          record_of-IsStoredRecord (clock.now (start + length os)) f (c (start + length os)) valid,
          tt,
        )
  History-IsStoredRecord c (History.emptied h) = History-IsStoredRecord c h
