-- ===== src/Protocol/Discriminants.antt =====
-- The conversions between bytes and the enums of protocol.rs.
use rust_telemetry_logger.Prelude.{ℕ, ◌≤◌, ◌<◌, ◌≡◌, ◌↔◌, none, some, arith}
use rust_telemetry_logger.Protocol.{
  PacketType, Severity, packet_type_of, packet_type_byte, severity_of, severity_byte,
}

-- A byte converts to a packet type exactly when it is that type's discriminant.
pub packet_type_of_iff :
    (value : ℕ) (t : PacketType) → (packet_type_of value ≡ some t) ↔ (value ≡ packet_type_byte t)
unfolding packet_type_of packet_type_byte
packet_type_of_iff value t = (ground arith, ground arith)

-- A byte converts to a severity exactly when it is that severity's discriminant.
pub severity_of_iff :
    (value : ℕ) (s : Severity) → (severity_of value ≡ some s) ↔ (value ≡ severity_byte s)
unfolding severity_of severity_byte
severity_of_iff value s = (ground arith, ground arith)

pub packet_type_of-none : (value : ℕ) → (packet_type_of value ≡ none) ↔ ((1 ≤ value → 5 < value))
unfolding packet_type_of
packet_type_of-none value = (ground arith, ground arith)

pub severity_of-none : (value : ℕ) → (severity_of value ≡ none) ↔ (4 < value)
unfolding severity_of
severity_of-none value = (ground arith, ground arith)
