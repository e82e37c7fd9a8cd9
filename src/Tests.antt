-- ===== src/Tests.antt =====
-- Concrete runs of the theorems, component by component.
mod Toy
mod Ring
mod Server
mod Shim
mod Hda
mod Mixer
mod Codec
mod Listen
mod Player
mod Open
mod Names
mod World
