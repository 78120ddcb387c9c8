-- ===== src/Examples/Sinking.antt =====
-- The theorem on the generator's program, with a world of one file and one socket.
use rust_telemetry_logger.Prelude.{ℕ, ◌≡◌, refl, List, [], ◌∷◌, ◌++◌, ok, ret, codes}
use rust_telemetry_logger.Examples.Checksums.{crc16_ibm_sdlc}
use rust_telemetry_logger.Examples.Containers.{byte_vec, byte_vec-laws}
use rust_telemetry_logger.Examples.Generation.{counter, counter-laws}
use rust_telemetry_logger.Examples.Stuffing.{cobs}
use rust_telemetry_logger.Examples.Stuffing.Laws.{cobs-laws}
use rust_telemetry_logger.External.Sinks.{Sinks, SinksLaws}
use rust_telemetry_logger.Generator.Main.{Args, main}
use rust_telemetry_logger.Generator.Sent.{Ends, main_cases}

-- What is in the file, and what went to the socket.
abbrev World : Type 0
World = List ℕ × List (List ℕ)

abbrev sinks : Sinks World (Unit {0}) (Unit {0}) (Unit {0})
sinks = record {
  stdout = tt;
  create = λ w path. (ok tt, ([], w.1));
  connect = λ w addr. (ok tt, w);
  bind = λ w. (ok tt, w);
  send_to = λ w u buf addr. (ok 0, (w.0, w.1 ++ (buf ∷ [])));
  write_all = λ w f buf. (ok tt, (w.0 ++ buf, w.1));
  flush = λ w f. (ok tt, w);
}

abbrev sinks-laws : SinksLaws sinks
sinks-laws = record {
  bytes = λ w f. w.0;
  datagrams = λ w u. w.1;
  write_all-bytes = λ w f buf e. refl;
  flush-bytes = λ w f. refl;
  send_to-datagrams = λ w u buf addr n e. refl;
}

abbrev args : Args
args = record {
  count = 3;
  sink = codes "file:frames.bin";
  corrupt = codes "bad-crc" ∷ codes "burst" ∷ [];
  burst_size = 2;
}

main_cases_example :
    (status : ℕ) × (lines : List (List ℕ)) × (w' : World) × (main sinks counter byte_vec
        crc16_ibm_sdlc cobs args 0
        ([], [])
      ≡ ret (status, lines, w'))
    × Ends sinks-laws counter-laws byte_vec-laws crc16_ibm_sdlc cobs-laws args 0
        ([], [])
        status
        lines
        w'
main_cases_example =
    main_cases sinks-laws counter-laws byte_vec-laws crc16_ibm_sdlc cobs-laws args 0 ([], [])
