-- ===== src/Generator/Sink.antt =====
-- tools/packet-generator/src/main.rs: the output sinks.
use rust_telemetry_logger.Prelude.{
  ℕ, List, none, some, if◌then◌else◌, Result, ok, err, codes, same_text, strip_prefix,
}
use rust_telemetry_logger.External.Sinks.{Sinks}

-- `stdout` holds the program's standard output.
pub data Sink (F U : Type 0) : Type 0 where
  stdout file tcp : F → Sink F U
  udp : U → List ℕ → Sink F U

-- Why there is no sink.
pub data SinkError (E : Type 0) : Type 0 where
  create_failed connect_failed : List ℕ → E → SinkError E
  bind_failed : E → SinkError E
  unrecognised : List ℕ → SinkError E

module _ {W F U E : Type 0} (sinks : Sinks W F U E) where
  unfoldable pub open_file : W → List ℕ → Result (Sink F U) (SinkError E) × W
  open_file w path =
      let (created, w') = sinks.create w path in
      elim created [ err e ↦ (err (create_failed path e), w') | ok f ↦ (ok (file f), w') ]

  unfoldable pub open_tcp : W → List ℕ → Result (Sink F U) (SinkError E) × W
  open_tcp w addr =
      let (connected, w') = sinks.connect w addr in
      elim connected [ err e ↦ (err (connect_failed addr e), w') | ok f ↦ (ok (tcp f), w') ]

  unfoldable pub open_udp : W → List ℕ → Result (Sink F U) (SinkError E) × W
  open_udp w addr =
      let (bound, w') = sinks.bind w in
      elim bound [ err e ↦ (err (bind_failed e), w') | ok socket ↦ (ok (udp socket addr), w') ]

  unfoldable pub from_spec : W → List ℕ → Result (Sink F U) (SinkError E) × W
  from_spec w spec =
      if same_text spec (codes "-")
      then (ok (stdout sinks.stdout), w)
      else elim (strip_prefix (codes "file:") spec) [
        | some path ↦ open_file w path
        | none ↦ elim (strip_prefix (codes "tcp:") spec) [
          | some addr ↦ open_tcp w addr
          | none ↦ elim (strip_prefix (codes "udp:") spec) [
            | some addr ↦ open_udp w addr
            | none ↦ (err (unrecognised spec), w)
          ]
        ]
      ]

  -- A frame goes to a socket as one datagram.
  unfoldable pub write_all : W → Sink F U → List ℕ → Result (Unit {0}) E × W
  write_all w (stdout f) buf = sinks.write_all w f buf
  write_all w (file f) buf = sinks.write_all w f buf
  write_all w (tcp f) buf = sinks.write_all w f buf
  write_all w (udp socket addr) buf =
      let (sent, w') = sinks.send_to w socket buf addr in
      elim sent [ err e ↦ (err e, w') | ok n ↦ (ok tt, w') ]

  unfoldable pub flush : W → Sink F U → Result (Unit {0}) E × W
  flush w (stdout f) = sinks.flush w f
  flush w (file f) = sinks.flush w f
  flush w (tcp f) = sinks.flush w f
  flush w (udp socket addr) = (ok tt, w)
