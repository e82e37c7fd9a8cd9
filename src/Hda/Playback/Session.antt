-- ===== src/Hda/Playback/Session.antt =====
-- hda/src/lib.rs: `HdaPlayback::open`, with the dumps that two options ask for.
use audiod.Prelude.{ℕ, ◌==◌, not, Bool, false, Option, none, some, List, [], if◌then◌else◌}
use audiod.Hda.Device.{Device}
use audiod.Hda.Dbg.{DebugOpts}
use audiod.Hda.Corb.{Polls, Result, ok, err, other}
use audiod.Hda.Controller.{Controller, sd0_base, sd0_tag}
use audiod.Hda.Controller.Open.{open_controller}
use audiod.Hda.Codec.{Codec, Verb}
use audiod.Hda.Stream
use audiod.Hda.Stream.{Stream}
use audiod.Hda.Playback.{HdaPlayback}
use audiod.Hda.Playback.Open.{
  Link, controller_of, on_device, new_stream, probe, take_steps, all_steps,
}
use audiod.Hda.Playback.Dump.{dump_topology, dump_state}
use audiod.Hda.Io.{Io, ◌>>=◌, ◌>>◌, give, or_fail, guard}

module _ (bus : Device) where
  open bus use {D}

  module _ (shows : D → Polls) (spins : ℕ) where
    -- A dump, where it is wanted.
    unfoldable pub show_topology : Bool → Io (Link D) (Unit {0})
    unfolding dump_topology
    show_topology wanted =
        if wanted then (dump_topology bus shows spins >>= λ widgets. give tt) else give tt

    unfoldable pub show_state : Bool → Io (Link D) (Unit {0})
    unfolding dump_state
    show_state wanted =
        if wanted then (dump_state bus shows spins >>= λ nodes. give tt) else give tt

    -- The set-up of the codec and the dump behind it, unless both are skipped.
    unfoldable pub set_up : Bool → Bool → ℕ → Controller → Io (Link D) (Unit {0})
    unfolding take_steps show_state
    set_up skip dump rate c =
        if skip
        then give tt
        else take_steps bus shows spins (all_steps bus shows spins c.cad rate (sd0_tag c))
          >> show_state dump

    -- The end of `open`, with the codec and the stream that have been found.
    unfoldable pub finish_open : DebugOpts → ℕ → Codec → Stream → Io (Link D) (Codec × HdaPlayback)
    unfolding set_up
    finish_open dbg rate codec s = do
      c ← controller_of
      set_up dbg.skip_codec_init dbg.dump_state rate c
      c' ← controller_of
      give (
        codec,
        record { controller = c'; stream = s; rate = rate; running = false; bytes_written = 0 },
      )

    -- `HdaPlayback::open` behind `Controller::open`.
    unfoldable pub open_playback :
        DebugOpts → (ℕ → ℕ) → (ℕ → ℕ) → ℕ → Io (Link D) (Codec × HdaPlayback)
    unfolding probe show_topology new_stream Stream.srst Stream.setup finish_open
    open_playback dbg ring_page bdl_page rate = do
      c0 ← controller_of
      guard (not (c0.codec_mask == 0)) other
      codec ← probe bus shows spins
      show_topology dbg.dump_topology
      s ← or_fail (new_stream ring_page bdl_page) other
      c ← controller_of
      armed ← on_device (λ (d : D).
          Stream.setup bus (sd0_base c) (sd0_tag c) rate s (Stream.srst bus (sd0_base c) d))
      finish_open dbg rate codec armed

    -- How `open` ends, with the verbs that the codecs were sent.
    abbrev pub end_open :
        Option (Result (Codec × HdaPlayback) × Link D)
        → Option (Result (Codec × HdaPlayback) × List Verb × D)
    end_open none = none
    end_open (some (result, l)) = some (result, l.sent, l.device)

    -- `HdaPlayback::open`, with the pages that the system gives to its three buffers.
    unfoldable pub open_hda :
        DebugOpts
        → (ℕ → ℕ)
        → (ℕ → ℕ)
        → (ℕ → ℕ)
        → ℕ
        → List ℕ
        → ℕ
        → D
        → Option (Result (Codec × HdaPlayback) × List Verb × D)
    unfolding open_playback
    open_hda dbg corb_page ring_page bdl_page polls config rate d =
        elim (open_controller bus dbg corb_page polls config d).0 [
          | none ↦ none
          | some (err e, d') ↦ some (err e, [], d')
          | some (ok c, d') ↦ end_open (
              open_playback dbg ring_page bdl_page rate
                (record { controller = c; sent = []; device = d' }))
        ]
