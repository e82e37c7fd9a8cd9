-- ===== src/Server.antt =====
-- server/src: the daemon.
pub mod Command
pub mod Dsp
pub mod Reader
pub mod State
pub mod Backend
pub mod Mixer
pub mod Wav
pub mod Listen
pub mod Local
pub mod Player
pub mod Args
pub mod World
