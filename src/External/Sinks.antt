-- ===== src/External/Sinks.antt =====
-- `std::fs`, `std::net` and `std::io` for the outputs of the generator: a world `W`, open files
-- and streams `F`, sockets `U`, and I/O errors `E`.
use rust_telemetry_logger.Prelude.{ℕ, ◌≡◌, List, [], ◌∷◌, ◌++◌, Result, ok}

pub record Sinks (W F U E : Type 0) : Type 0 where
  -- `io::stdout`
  pub stdout : F
  -- `File::create` and `TcpStream::connect`
  pub create : W → List ℕ → Result F E × W
  pub connect : W → List ℕ → Result F E × W
  -- `UdpSocket::bind("0.0.0.0:0")` and `send_to`
  pub bind : W → Result U E × W
  pub send_to : W → U → List ℕ → List ℕ → Result ℕ E × W
  pub write_all : W → F → List ℕ → Result (Unit {0}) E × W
  pub flush : W → F → Result (Unit {0}) E × W

-- What the generator relies on: a successful write goes, whole and in order, behind what was
-- written before; a flush changes nothing.
pub record SinksLaws {W F U E : Type 0} (sinks : Sinks W F U E) : Type 0 where
  -- The bytes written so far, and the datagrams sent so far.
  pub bytes : W → F → List ℕ
  pub datagrams : W → U → List (List ℕ)
  pub write_all-bytes :
      (w : W) (f : F) (buf : List ℕ)
      → (sinks.write_all w f buf).0 ≡ ok tt
      → bytes (sinks.write_all w f buf).1 f ≡ bytes w f ++ buf
  pub flush-bytes : (w : W) (f : F) → bytes (sinks.flush w f).1 f ≡ bytes w f
  pub send_to-datagrams :
      (w : W) (u : U) (buf addr : List ℕ) (n : ℕ)
      → (sinks.send_to w u buf addr).0 ≡ ok n
      → datagrams (sinks.send_to w u buf addr).1 u ≡ datagrams w u ++ (buf ∷ [])
