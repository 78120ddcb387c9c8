-- ===== src/Decode/Directory.antt =====
-- tools/telemetry-decode/src/main.rs: which files of a directory are segments.
use rust_telemetry_logger.Prelude.{
  ℕ, leb, ◌+◌, ◌==◌, ◌&&◌, Bool, false, List, [], ◌∷◌, ◌++◌, map, Option, none, some, if◌then◌else◌,
  is_none, not, Result, ok, err, codes, same_text, strip_prefix,
}
use rust_telemetry_logger.External.Paths.{Paths}

-- What is behind the last dot of a text.
unfoldable pub after_last_dot : List ℕ → Option (List ℕ)
after_last_dot [] = none
after_last_dot (c ∷ cs) = elim (after_last_dot cs) [
  | some rest ↦ some rest
  | none ↦ if c == 46 then some cs else none
]

-- `Path::extension` of a file name: a dot at its front begins no extension.
unfoldable pub extension : List ℕ → Option (List ℕ)
extension [] = none
extension (c ∷ cs) = after_last_dot cs

-- `u8::to_ascii_lowercase`
abbrev pub to_lower : ℕ → ℕ
to_lower c = if leb 65 c && leb c 90 then c + 32 else c

-- `eq_ignore_ascii_case`
unfoldable pub same_ignoring_case : List ℕ → List ℕ → Bool
same_ignoring_case xs ys = same_text (map to_lower xs) (map to_lower ys)

-- The test of `collect_segments_in_dir` on a file's name.
unfoldable pub is_segment_name : List ℕ → Bool
is_segment_name name =
    not (is_none (strip_prefix (codes "seg-") name))
    && elim (extension name) [ none ↦ false | some ext ↦ same_ignoring_case ext (codes "bin") ]

module _ {P E : Type 0} (paths : Paths P E) where
  unfoldable pub is_segment : P → Bool
  is_segment path = elim (paths.file_name path) [ none ↦ false | some name ↦ is_segment_name name ]

  -- The loop over the entries; the first error ends it.
  unfoldable pub collect : List P → List (Result P E) → Result (List P) E
  collect found [] = ok found
  collect found (err e ∷ entries) = err e
  collect found (ok path ∷ entries) =
      collect (if is_segment path then found ++ (path ∷ []) else found) entries

  unfoldable pub collect_segments_in_dir : P → Result (List P) E
  collect_segments_in_dir dir = elim (paths.read_dir dir) [
    | err e ↦ err e
    | ok entries ↦ collect [] entries
  ]
