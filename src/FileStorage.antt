-- ===== src/FileStorage.antt =====
-- crates/telemetry-std/src/lib.rs: the rotating segment writer.
pub mod Reliable
pub mod Calls
pub mod Rotation
pub mod Groups
pub mod Segments
pub mod Drain
pub mod Names
use rust_telemetry_logger.Prelude.{
  ℕ, ◌+◌, ◌%◌, ◌^◌, Bool, List, Option, none, some, ltb, ◌==◌, ◌||◌, length, if◌then◌else◌, Result,
  ok, err, is_none,
}
use rust_telemetry_logger.External.Files.{Files}
use rust_telemetry_logger.Traits.{Storage}

-- `FileStorage` without its directory; a path is the index of its segment.
pub record FileStorage (F : Type 0) : Type 0 where
  pub max_segment_bytes : ℕ
  pub current_file : Option F
  pub segment_index : ℕ
  pub current_size : ℕ

module _ {D F E : Type 0} (fs : Files D F E) where
  -- `new`, once the directory is there.
  abbrev pub new : ℕ → FileStorage F
  new max_segment_bytes = record {
    max_segment_bytes = max_segment_bytes;
    current_file = none;
    segment_index = 0;
    current_size = 0;
  }

  unfoldable pub segment_count : FileStorage F → ℕ
  segment_count s = s.segment_index

  unfoldable pub current_path : FileStorage F → Option ℕ
  current_path s = if s.segment_index == 0 then none else some s.segment_index

  -- `flush`, and the first step of `open_next_segment`.
  unfoldable pub flush : FileStorage F × D → Result (Unit {0}) E × FileStorage F × D
  flush (s, d) = elim s.current_file [
    | none ↦ (ok tt, s, d)
    | some f ↦ let (flushed, d') = fs.flush d f in (flushed, s, d')
  ]

  -- `open_next_segment` from the new index on.
  unfoldable pub create_segment : FileStorage F × D → Result (Unit {0}) E × FileStorage F × D
  create_segment (s, d) =
      let index = (s.segment_index + 1) % 2 ^ 32 in
      let (created, d') = fs.create d index in
      elim created [
        | err e ↦ (err e, record s { segment_index = index }, d')
        | ok f ↦
            (ok tt, record s { segment_index = index; current_file = some f; current_size = 0 }, d')
      ]

  unfoldable pub open_next_segment : FileStorage F × D → Result (Unit {0}) E × FileStorage F × D
  open_next_segment (s, d) =
      let (flushed, s', d') = flush (s, d) in
      elim flushed [ err e ↦ (err e, s', d') | ok _ ↦ create_segment (s', d') ]

  -- `write` behind the rotation.
  unfoldable pub append : FileStorage F × D → List ℕ → Result (Unit {0}) E × FileStorage F × D
  append (s, d) bytes = elim s.current_file [
    | none ↦ (err fs.other, s, d)
    | some f ↦
        let (written, d') = fs.write_all d f bytes in
        elim written [
          | err e ↦ (err e, s, d')
          | ok _ ↦ (ok tt, record s { current_size = s.current_size + length bytes }, d')
        ]
  ]

  unfoldable pub needs_rotate : FileStorage F → List ℕ → Bool
  needs_rotate s bytes =
      is_none s.current_file || ltb s.max_segment_bytes (s.current_size + length bytes)

  unfoldable pub write : FileStorage F × D → List ℕ → Result (Unit {0}) E × FileStorage F × D
  write (s, d) bytes =
      if needs_rotate s bytes
      then (let (opened, s', d') = open_next_segment (s, d) in
          elim opened [ err e ↦ (err e, s', d') | ok _ ↦ append (s', d') bytes ])
      else append (s, d) bytes

  -- `impl Storage for FileStorage`
  unfoldable pub file_storage : Storage (FileStorage F × D) E
  file_storage = record {
    write = λ sd bytes. let (written, s, d) = write sd bytes in (written, (s, d));
    flush = λ sd. let (flushed, s, d) = flush sd in (flushed, (s, d));
  }
