-- ===== src/External/Inputs.antt =====
-- `std::fs`, `std::net` and `std::io` for the inputs of the host: open inputs are an `S`, I/O
-- errors an `E`, addresses of senders an `A`.
use rust_telemetry_logger.Prelude.{ℕ, List, Result}

pub record Inputs (S E A : Type 0) : Type 0 where
  -- `io::stdin`
  pub stdin : S
  -- `File::open`, `TcpListener::bind`, `accept` and `UdpSocket::bind`
  pub open_file : List ℕ → Result S E
  pub listen : List ℕ → Result S E
  pub accept : S → Result S E
  pub bind : List ℕ → Result S E
  -- `Read::read` and `UdpSocket::recv_from`
  pub read : S → ℕ → Result (List ℕ) E × S
  pub recv_from : S → ℕ → Result (List ℕ × A) E × S
