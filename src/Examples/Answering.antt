-- ===== src/Examples/Answering.antt =====
-- The theorem on the framer's answers, at an empty chunk, a broken one and one that is too long.
use rust_telemetry_logger.Prelude.{ℕ, ◌≡◌, refl, arith, List, [], ◌∷◌, ret}
use rust_telemetry_logger.Examples.Containers.{byte_vec, byte_vec-laws}
use rust_telemetry_logger.Examples.Stuffing.{cobs}
use rust_telemetry_logger.Examples.Stuffing.Laws.{cobs-laws}
use rust_telemetry_logger.Framer.{Framer, FrameOutput, new, feed_all}
use rust_telemetry_logger.Framer.Description.{delimited, Answers, IsBetween}
use rust_telemetry_logger.Framer.Reference.{feed_all-delimited}

abbrev chunks : List (List ℕ)
chunks = [] ∷ (9 ∷ 1 ∷ []) ∷ (1 ∷ 1 ∷ 1 ∷ 1 ∷ 1 ∷ []) ∷ []

feed_all-delimited_example :
    (answers os : List FrameOutput) × (f' : Framer) × (feed_all byte_vec cobs 4 new
        (delimited chunks)
      ≡ ret (os, f'))
    × Answers cobs 4 chunks answers os
    × IsBetween 0 answers f'
feed_all-delimited_example =
    feed_all-delimited byte_vec-laws cobs-laws 4 chunks new refl refl
      (tt, (omega arith, (omega arith, tt)))
