-- ===== src/FileStorage/Groups.antt =====
-- How records are grouped into segments: the newest group first, each one filled up to the limit.
use rust_telemetry_logger.Prelude.{
  ℕ, suc, ◌+◌, ◌≤◌, ◌≡◌, ◌∙◌, ap, sym, refl, arith, List, [], ◌∷◌, ◌++◌, append_assoc, append-nil,
  length, ltb, ltb→ge, length-append, ◌⊎◌, if◌then◌else◌, Bool-cases, inl, inr, All,
}
use rust_telemetry_logger.External.Cobs.{CobsLaws}
use rust_telemetry_logger.Pipeline.{Crates}
use rust_telemetry_logger.Pipeline.Bytes.{stored, stored_all, stored_all-append}
use rust_telemetry_logger.Record.{StoredRecord}
use rust_telemetry_logger.Record.Format.{PostcardLaws}

-- All records, the oldest first.
unfoldable pub in_order : List (List StoredRecord) → List StoredRecord
in_order [] = []
in_order (g ∷ gs) = in_order gs ++ g

module _ (x : Crates) (k : CobsLaws x.cobs) (pl : PostcardLaws x.postcard) (limit : ℕ) where
  -- A record joins the newest group while that stays within the limit.
  unfoldable pub place : List (List StoredRecord) → StoredRecord → List (List StoredRecord)
  place [] r = (r ∷ []) ∷ []
  place (g ∷ gs) r =
      if ltb limit (length (stored_all x k pl g) + length (stored x k pl r))
      then (r ∷ []) ∷ g ∷ gs
      else (g ++ (r ∷ [])) ∷ gs

  unfoldable pub places : List (List StoredRecord) → List StoredRecord → List (List StoredRecord)
  places gs [] = gs
  places gs (r ∷ rs) = places (place gs r) rs

  in_order-place :
      (gs : List (List StoredRecord)) (r : StoredRecord)
      → in_order (place gs r) ≡ in_order gs ++ (r ∷ [])
  unfolding in_order place
  in_order-place [] r = refl
  in_order-place (g ∷ gs) r =
      elim (Bool-cases (ltb limit (length (stored_all x k pl g) + length (stored x k pl r)))) [
        | inl full ↦ rw full refl
        | inr fits ↦ rw fits (sym (append_assoc (in_order gs) g (r ∷ [])))
      ]

  -- No record is lost, and their order is kept.
  pub in_order-places :
      (rs : List StoredRecord) (gs : List (List StoredRecord))
      → in_order (places gs rs) ≡ in_order gs ++ rs
  unfolding places
  in_order-places [] gs = sym (append-nil (in_order gs))
  in_order-places (r ∷ rs) gs =
      in_order-places rs (place gs r)
      ∙ ap (λ l. l ++ rs) (in_order-place gs r)
      ∙ append_assoc (in_order gs) (r ∷ []) rs

  -- A group stays within the limit, or is a single record.
  abbrev pub IsFitting : List StoredRecord → Type 0
  IsFitting g = (length (stored_all x k pl g) ≤ limit) ⊎ (length g ≤ 1)

  place-IsFitting :
      (gs : List (List StoredRecord)) (r : StoredRecord)
      → All IsFitting gs
      → All IsFitting (place gs r)
  unfolding place stored_all
  place-IsFitting [] r h = (inr (omega arith), tt)
  place-IsFitting (g ∷ gs) r h =
      elim (Bool-cases (ltb limit (length (stored_all x k pl g) + length (stored x k pl r)))) [
        | inl full ↦ rw full (inr (omega arith), h)
        | inr fits ↦ rw fits (
          inl (
              omega (
                arith,
                ltb→ge _ _ fits,
                ap length (stored_all-append x k pl g (r ∷ [])),
                length-append (stored_all x k pl g) (stored x k pl r ++ []),
                ap length (append-nil (stored x k pl r)),
              )),
          h.1,
        )
      ]

  pub places-IsFitting :
      (rs : List StoredRecord) (gs : List (List StoredRecord))
      → All IsFitting gs
      → All IsFitting (places gs rs)
  unfolding places
  places-IsFitting [] gs h = h
  places-IsFitting (r ∷ rs) gs h = places-IsFitting rs (place gs r) (place-IsFitting gs r h)

  pub length-place :
      (gs : List (List StoredRecord)) (r : StoredRecord) → length (place gs r) ≤ suc (length gs)
  unfolding place
  length-place [] r = omega arith
  length-place (g ∷ gs) r =
      elim (Bool-cases (ltb limit (length (stored_all x k pl g) + length (stored x k pl r)))) [
        | inl full ↦ rw full (omega arith)
        | inr fits ↦ rw fits (omega arith)
      ]

  pub length-places :
      (rs : List StoredRecord) (gs : List (List StoredRecord))
      → length (places gs rs) ≤ length gs + length rs
  unfolding places
  length-places [] gs = omega arith
  length-places (r ∷ rs) gs = omega (arith, length-places rs (place gs r), length-place gs r)
