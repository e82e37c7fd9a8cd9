-- ===== src/Hda.antt =====
-- hda/src: the driver of the controller, in user space.
pub mod Device
pub mod Mmio
pub mod Dma
pub mod Rate
pub mod Stream
pub mod Corb
pub mod Controller
pub mod Playback
pub mod Codec
pub mod Io
pub mod Pcicfg
pub mod Dbg
pub mod Pagemap
