-- ===== src/Framer/Description.antt =====
-- What the framer answers to chunks of bytes between delimiters, described without its state machine.
use rust_telemetry_logger.Prelude.{
  ℕ, ◌-◌, ◌≤◌, ◌<◌, ◌≡◌, ◌≢◌, List, [], ◌∷◌, ◌++◌, none, some, leb, if◌then◌else◌, length,
  replicate, saturating_add_u32,
}
use rust_telemetry_logger.External.Cobs.{Cobs}
use rust_telemetry_logger.Frame.{Frame, IsFrame, raw_len}
use rust_telemetry_logger.Framer.{
  Framer, collecting, FrameOutput, incomplete, complete, overflow, cobs_error, parse_error,
}
use rust_telemetry_logger.Framer.Parse.{frame_bytes}

-- The stream of some chunks, each with a delimiter behind it.
unfoldable pub delimited : List (List ℕ) → List ℕ
delimited [] = []
delimited (c ∷ chunks) = (c ++ (0 ∷ [])) ++ delimited chunks

module _ (cobs : Cobs) (N : ℕ) where
  -- The answer to a chunk that is not empty and fits in the buffer of `N` bytes.
  pub data IsDecodedAs (chunk : List ℕ) : FrameOutput → Type 0 where
    not_cobs : (cobs.decode_in_place chunk).0 ≡ none → IsDecodedAs chunk cobs_error
    frame :
        (f : Frame) (tail : List ℕ)
        → (cobs.decode_in_place chunk).0 ≡ some (raw_len f)
        → (cobs.decode_in_place chunk).1 ≡ frame_bytes f ++ tail
        → IsFrame f
        → IsDecodedAs chunk (complete f)
    no_frame :
        (n : ℕ)
        → (cobs.decode_in_place chunk).0 ≡ some n
        → ((f : Frame) (tail : List ℕ)
            → IsFrame f
            → n ≡ raw_len f
            → (cobs.decode_in_place chunk).1 ≢ frame_bytes f ++ tail)
        → IsDecodedAs chunk parse_error

  -- The answer to a chunk: nothing to an empty one, `Overflow` to one that is too long.
  pub data IsAnswer (chunk : List ℕ) : FrameOutput → Type 0 where
    nothing : chunk ≡ [] → IsAnswer chunk incomplete
    too_long : N < length chunk → IsAnswer chunk overflow
    decoded :
        {o : FrameOutput}
        → 0 < length chunk
        → length chunk ≤ N
        → IsDecodedAs chunk o
        → IsAnswer chunk o

  -- The outputs for a chunk and its delimiter, one for each byte: the answer comes with the
  -- delimiter, or with the first byte that does not fit.
  abbrev pub outputs : List ℕ → FrameOutput → List FrameOutput
  outputs chunk o =
      if leb (length chunk) N
      then replicate (length chunk) incomplete ++ (o ∷ [])
      else replicate N incomplete ++ (o ∷ replicate (length chunk - N) incomplete)

  -- The chunks have these answers, and these are all outputs.
  pub data Answers : List (List ℕ) → List FrameOutput → List FrameOutput → Type 0 where
    end : Answers [] [] []
    next :
        (c : List ℕ) (chunks : List (List ℕ)) (o : FrameOutput) (answers os : List FrameOutput)
        → IsAnswer c o
        → Answers chunks answers os
        → Answers (c ∷ chunks) (o ∷ answers) (outputs c o ++ os)

-- How an answer counts as a loss of synchronisation.
unfoldable pub resyncs : ℕ → List FrameOutput → ℕ
resyncs count [] = count
resyncs count (overflow ∷ answers) = resyncs (saturating_add_u32 count 1) answers
resyncs count (cobs_error ∷ answers) = resyncs (saturating_add_u32 count 1) answers
resyncs count (incomplete ∷ answers) = resyncs count answers
resyncs count (complete f ∷ answers) = resyncs count answers
resyncs count (parse_error ∷ answers) = resyncs count answers

-- The framer is between chunks again, and counts the answers.
pub record IsBetween (count : ℕ) (answers : List FrameOutput) (f : Framer) : Type 0 where
  pub collects : f.state ≡ collecting
  pub empty : f.buf ≡ []
  pub counted : f.resync_count ≡ resyncs count answers
