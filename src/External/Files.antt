-- ===== src/External/Files.antt =====
-- `std::fs` and `std::io`: files of one directory, named by a segment index, on a disk `D`.
use rust_telemetry_logger.Prelude.{ℕ, ◌≡◌, ◌≢◌, List, [], ◌++◌, Result, ok}

-- An open file is an `F`; an I/O error is an `E`.
pub record Files (D F E : Type 0) : Type 0 where
  -- `File::create`: an empty file in place of any that was there.
  pub create : D → ℕ → Result F E × D
  pub write_all : D → F → List ℕ → Result (Unit {0}) E × D
  pub flush : D → F → Result (Unit {0}) E × D
  -- `io::Error::other`
  pub other : E

pub record FilesLaws {D F E : Type 0} (fs : Files D F E) : Type 0 where
  pub contents : D → ℕ → List ℕ
  -- The segment that an open file is.
  pub index : F → ℕ
  pub create-index : (d : D) (i : ℕ) (f : F) → (fs.create d i).0 ≡ ok f → index f ≡ i
  pub contents-create :
      (d : D) (i : ℕ) (f : F) → (fs.create d i).0 ≡ ok f → contents (fs.create d i).1 i ≡ []
  -- A write that succeeds appends. None of the calls changes another file, and `flush` none at all.
  pub contents-write_all :
      (d : D) (f : F) (bytes : List ℕ)
      → (fs.write_all d f bytes).0 ≡ ok tt
      → contents (fs.write_all d f bytes).1 (index f) ≡ contents d (index f) ++ bytes
  pub create-other : (d : D) (i j : ℕ) → j ≢ i → contents (fs.create d i).1 j ≡ contents d j
  pub write_all-other :
      (d : D) (f : F) (bytes : List ℕ) (j : ℕ)
      → j ≢ index f
      → contents (fs.write_all d f bytes).1 j ≡ contents d j
  pub contents-flush : (d : D) (f : F) (j : ℕ) → contents (fs.flush d f).1 j ≡ contents d j
