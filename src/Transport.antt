-- ===== src/Transport.antt =====
-- src/transport: how messages travel over a link with small packets.
pub mod Chunks
pub mod Wire
pub mod Connection
pub mod Ble
pub mod Wifi
pub mod Manager
