-- ===== src/Proto.antt =====
-- muxtls-proto: the wire format. A byte buffer is a list of numbers below 256.
pub mod Bytes
pub mod VarInt
pub mod Utf8
pub mod Frame
