-- ===== src/Connection.antt =====
-- muxtls/src/connection.rs, by part.
pub mod State
pub mod Writer
pub mod Permits
pub mod Payload
pub mod Receive
pub mod Shared
pub mod EndToEnd
pub mod Handle
pub mod Tasks
