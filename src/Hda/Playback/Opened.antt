-- ===== src/Hda/Playback/Opened.antt =====
-- What holds of `HdaPlayback::open` on any device.
use audiod.Prelude.{ℕ, ◌≡◌, Bool, Option, none, some, List}
use audiod.Hda.Device.{Device}
use audiod.Hda.Dma
use audiod.Hda.Dma.{HasPages, size, fill}
use audiod.Hda.Corb.{Polls, Result, ok, err}
use audiod.Hda.Controller.{Controller}
use audiod.Hda.Codec.{Codec, Verb}
use audiod.Hda.Stream
use audiod.Hda.Stream.{Stream}
use audiod.Hda.Playback.{HdaPlayback}
use audiod.Hda.Playback.Finished.{Opened}

-- A new stream has a list of one page, and both its buffers have their pages.
abbrev Whole : Stream → Type 0
Whole s = (size s.bdl ≡ 4096) × HasPages s.bdl × HasPages s.ring

module _ (bus : Device) where
  open bus use {D}

  module _ (shows : D → Polls) (spins : ℕ) where
    -- No assertion has failed, and what has been opened is as it should be.
    abbrev pub Opens :
        Bool → Bool → ℕ → Option (Result (Codec × HdaPlayback) × List Verb × D) → Type 0
    Opens skip dump rate none = ⊥
    Opens skip dump rate (some (err e, sent, d)) = Unit {0}
    Opens skip dump rate (some (ok opened, sent, d)) =
        Opened bus shows spins skip dump rate opened sent
