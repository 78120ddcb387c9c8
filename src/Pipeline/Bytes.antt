-- ===== src/Pipeline/Bytes.antt =====
-- The bytes of stored records, one behind the other.
use rust_telemetry_logger.Prelude.{ℕ, ◌≡◌, ◌∙◌, ap, sym, refl, List, [], ◌∷◌, ◌++◌, append_assoc}
use rust_telemetry_logger.External.Cobs.{CobsLaws}
use rust_telemetry_logger.Pipeline.{Crates}
use rust_telemetry_logger.Record.{StoredRecord}
use rust_telemetry_logger.Record.Format.{PostcardLaws, stored_body}

module _ (x : Crates) (k : CobsLaws x.cobs) (pl : PostcardLaws x.postcard) where
  -- A stored record: its COBS body and the delimiter.
  abbrev pub stored : StoredRecord → List ℕ
  stored r = stored_body pl x.crc32 k r ++ (0 ∷ [])

  unfoldable pub stored_all : List StoredRecord → List ℕ
  stored_all [] = []
  stored_all (r ∷ rs) = stored r ++ stored_all rs

  pub stored_all-append :
      (rs qs : List StoredRecord) → stored_all (rs ++ qs) ≡ stored_all rs ++ stored_all qs
  unfolding stored_all
  stored_all-append [] qs = refl
  stored_all-append (r ∷ rs) qs =
      ap (λ l. stored r ++ l) (stored_all-append rs qs)
      ∙ sym (append_assoc (stored r) (stored_all rs) (stored_all qs))
