-- ===== src/Protocol.antt =====
-- crates/telemetry-core/src/protocol.rs: the constants and the two discriminant enums.
pub mod Discriminants
use rust_telemetry_logger.Prelude.{ℕ, ◌+◌, Option, none, some, ◌==◌, if◌then◌else◌}

abbrev pub protocol_version : ℕ
protocol_version = 1

abbrev pub max_payload : ℕ
max_payload = 480

abbrev pub header_len : ℕ
header_len = 9

abbrev pub crc16_len : ℕ
crc16_len = 2

abbrev pub min_frame_len : ℕ
min_frame_len = header_len + crc16_len

abbrev pub crc16_residue : ℕ
crc16_residue = 0xf0b8

pub data PacketType : Type 0 where
  heartbeat sensor_data event diagnostic control : PacketType

-- `TryFrom<u8>`; `none` is `Err(())`.
unfoldable pub packet_type_of : ℕ → Option PacketType
packet_type_of value =
    if value == 0x01
    then some heartbeat
    else if value == 0x02
    then some sensor_data
    else if value == 0x03
    then some event
    else if value == 0x04
    then some diagnostic
    else if value == 0x05
    then some control
    else none

pub data Severity : Type 0 where
  debug info warning error fatal : Severity

unfoldable pub severity_of : ℕ → Option Severity
severity_of value =
    if value == 0x00
    then some debug
    else if value == 0x01
    then some info
    else if value == 0x02
    then some warning
    else if value == 0x03
    then some error
    else if value == 0x04
    then some fatal
    else none

-- The values of `#[repr(u8)]`.
unfoldable pub packet_type_byte : PacketType → ℕ
packet_type_byte heartbeat = 0x01
packet_type_byte sensor_data = 0x02
packet_type_byte event = 0x03
packet_type_byte diagnostic = 0x04
packet_type_byte control = 0x05

unfoldable pub severity_byte : Severity → ℕ
severity_byte debug = 0x00
severity_byte info = 0x01
severity_byte warning = 0x02
severity_byte error = 0x03
severity_byte fatal = 0x04
