-- ===== src/FileStorage/Reliable.antt =====
-- The segment writer on a disk whose calls succeed.
use rust_telemetry_logger.Prelude.{
  ℕ, ◌+◌, ◌%◌, ◌^◌, ◌≡◌, refl, List, some, inl, inr, ok, Option-cases, Bool-cases,
}
use rust_telemetry_logger.External.Files.{Files}
use rust_telemetry_logger.FileStorage.{
  FileStorage, flush, create_segment, open_next_segment, append, needs_rotate, write,
}

-- No call fails.
pub record IsReliable {D F E : Type 0} (fs : Files D F E) : Type 0 where
  pub creates : (d : D) (i : ℕ) → (f : F) × ((fs.create d i).0 ≡ ok f)
  pub writes : (d : D) (f : F) (bytes : List ℕ) → (fs.write_all d f bytes).0 ≡ ok tt
  pub flushes : (d : D) (f : F) → (fs.flush d f).0 ≡ ok tt

module _ {D F E : Type 0} {fs : Files D F E} (h : IsReliable fs) where
  append_succeeds :
      (s : FileStorage F) (d : D) (f : F) (bytes : List ℕ)
      → s.current_file ≡ some f
      → (append fs (s, d) bytes).0 ≡ ok tt
  unfolding append
  append_succeeds s d f bytes opened = rw (opened, append) (rw (h.writes d f bytes) refl)

  pub flush_succeeds : (s : FileStorage F) (d : D) → (flush fs (s, d)).0 ≡ ok tt
  unfolding flush
  flush_succeeds s d = elim (Option-cases s.current_file) [
    | inl closed ↦ rw (closed, flush) refl
    | inr (f, opened) ↦ rw (opened, flush) (h.flushes d f)
  ]

  create_succeeds :
      (s : FileStorage F) (d : D)
      → ((create_segment fs (s, d)).0 ≡ ok tt)
        × (f : F) × ((create_segment fs (s, d)).1.current_file ≡ some f)
  unfolding create_segment
  create_succeeds s d =
      let (f, created) = h.creates d ((s.segment_index + 1) % 2 ^ 32) in
      (rw (created, create_segment) refl, f, rw (created, create_segment) refl)

  open_succeeds :
      (s : FileStorage F) (d : D)
      → ((open_next_segment fs (s, d)).0 ≡ ok tt)
        × (f : F) × ((open_next_segment fs (s, d)).1.current_file ≡ some f)
  unfolding open_next_segment
  open_succeeds s d =
      let flushed = flush_succeeds s d in
      let t = flush fs (s, d) in
      let (created, f, opened) = create_succeeds t.1 t.2 in
      (rw (flushed, open_next_segment) created, f, rw (flushed, open_next_segment) opened)

  pub write_succeeds :
      (s : FileStorage F) (d : D) (bytes : List ℕ) → (write fs (s, d) bytes).0 ≡ ok tt
  unfolding write needs_rotate
  write_succeeds s d bytes = elim (Bool-cases (needs_rotate fs s bytes)) [
    | inl rotates ↦
        let (done, f, opened) = open_succeeds s d in
        let t = open_next_segment fs (s, d) in
        rw (rotates, write) (rw done (append_succeeds t.1 t.2 f bytes opened))
    | inr stays ↦ elim (Option-cases s.current_file) [
      | inl closed ↦ cc (rw closed at stays)
      | inr (f, opened) ↦ rw (stays, write) (append_succeeds s d f bytes opened)
    ]
  ]
