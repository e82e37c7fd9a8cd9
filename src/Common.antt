-- ===== src/Common.antt =====
-- common/src: what the server and the shim share.
pub mod Audio
pub mod Config
pub mod Fifo
pub mod Ring
