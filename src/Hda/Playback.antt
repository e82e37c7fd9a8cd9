-- ===== src/Hda/Playback.antt =====
-- hda/src/lib.rs: `HdaPlayback`, a controller with its running stream. `none` is a failed assertion
-- of a DMA buffer.
pub mod Open
pub mod Session
pub mod Opened
pub mod Finished
pub mod Dump
pub mod Selftest
pub mod Quiet
pub mod Probed
use audiod.Prelude.{
  ◌&&◌, ltb, ℕ, ◌+◌, ◌/◌, ◌%◌, ◌^◌, Bool, true, false, Option, some, List, if◌then◌else◌, ◌>>=◌,
}
use audiod.Hda.Device.{Device, Log}
use audiod.Hda.Stream
use audiod.Hda.Stream.{Stream, delay_bytes}
use audiod.Hda.Controller.{Controller, sd_index, sd0_base, sd0_tag}

abbrev pub frame_bytes : ℕ
frame_bytes = 4

pub record HdaPlayback : Type 0 where
  pub controller : Controller
  pub stream : Stream
  pub rate : ℕ
  pub running : Bool
  pub bytes_written : ℕ

module _ (bus : Device) where
  open bus use {D}

  -- `start`, which sets the stream up anew after a stop.
  unfoldable pub start : Log → HdaPlayback → D → Option (HdaPlayback × D)
  start log p d =
      let base = sd0_base p.controller in
      if p.running then some (p, d) else do
        armed ←
            Stream.setup bus base (sd0_tag p.controller) p.rate p.stream (Stream.srst bus base d)
        let (s, d') = armed
        some (
          record p { stream = s; running = true },
          Stream.start bus log base (sd_index p.controller) d',
        )

  -- The line of the log at the end of `play`, which asks three times where the DMA engine is.
  unfoldable pub log_play : Log → HdaPlayback → D → D
  unfolding Stream.lpib Stream.status
  log_play log p d =
      let base = sd0_base p.controller in
      let d1 = (Stream.lpib bus base d).1 in
      let d2 = (Stream.lpib bus base d1).1 in
      let d3 = (Stream.lpib bus base d2).1 in
      if log.debug && ltb (p.bytes_written % 32768) 4 then (Stream.status bus base d3).1 else d

  unfoldable pub play : Log → HdaPlayback → List ℕ → D → Option (ℕ × HdaPlayback × D)
  unfolding log_play
  play log p samples d = do
    started ← start log p d
    let (p1, d1) = started
    let (taken, d2) = Stream.write bus (sd0_base p1.controller) p1.stream samples d1
    result ← taken
    let (n, s) = result
    let p2 = record p1 { stream = s; bytes_written = (p1.bytes_written + n) % 2 ^ 64 }
    some (n, p2, log_play log p2 d2)

  unfoldable pub delay_frames : HdaPlayback → D → ℕ × D
  delay_frames p d =
      let (rd, d') = Stream.lpib bus (sd0_base p.controller) d in
      (delay_bytes p.stream rd / frame_bytes, d')

  unfoldable pub drop_all : HdaPlayback → D → HdaPlayback × D
  drop_all p d =
      let base = sd0_base p.controller in
      (
        record p { stream = Stream.zero_ring (Stream.clear p.stream); running = false },
        Stream.srst bus base (Stream.stop bus base (sd_index p.controller) d),
      )

  unfoldable pub stop : HdaPlayback → D → HdaPlayback × D
  stop p d = (
    record p { running = false },
    Stream.stop bus (sd0_base p.controller) (sd_index p.controller) d,
  )
