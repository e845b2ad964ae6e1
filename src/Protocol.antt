-- ===== src/Protocol.antt =====
-- src/protocol: the MQTT packets, their decoder and their encoder.
pub mod Result
pub mod Io
pub mod Text
pub mod Packet
pub mod Decode
pub mod Encode
pub mod Bits
pub mod Length
pub mod RoundTrip
pub mod Panic
pub mod Wire
pub mod Ends
mod Tests
