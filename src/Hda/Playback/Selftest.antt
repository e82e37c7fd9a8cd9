-- ===== src/Hda/Playback/Selftest.antt =====
-- hda/src/lib.rs: `selftest_tone`, a sine of 440 Hz straight into the DMA ring,
-- behind the dump of the codec's state that an option asks for.
use audiod.Prelude.{ℕ, zero, suc, min, Option, none, some, List, [], ◌∷◌, ◌++◌, drop, ◌>>=◌}
use audiod.Prelude.Bytes.{u16_le}
use audiod.Prelude.Int.{ℤ, pos, negsuc, i16_bits}
use audiod.Prelude.Float.{Floats}
use audiod.Hda.Device.{Log, Device}
use audiod.Hda.Stream
use audiod.Hda.Controller.{sd0_base}
use audiod.Hda.Dbg.{DebugOpts}
use audiod.Hda.Corb.{Polls, Result, ok, err}
use audiod.Hda.Playback.Open.{Link}
use audiod.Hda.Playback.Session.{show_state}
use audiod.Hda.Playback.{HdaPlayback, start}

-- `x as i16` of what `x as isize` gives.
abbrev pub saturate16 : ℤ → ℤ
saturate16 (pos n) = pos (min n 32767)
saturate16 (negsuc n) = negsuc (min n 32767)

module _ (fl : Floats) where
  open fl use {
    F32, F64, mul, of_int, to_usize, lit64, of_ℕ64, add64, mul64, div64, sin, pi, to_f64,
    to_isize64,
  }

  -- The frames one by one, with the phase and its step.
  unfoldable pub tone_frames : ℕ → F64 → F64 → F32 → List ℕ
  tone_frames zero phase step volume = []
  tone_frames (suc left) phase step volume =
      let s = mul64 (mul64 (sin phase) (lit64 30000 0)) (to_f64 volume) in
      let bytes = u16_le (i16_bits (saturate16 (to_isize64 s))) in
      bytes ++ bytes ++ tone_frames left (add64 phase step) step volume

  unfoldable pub tone : ℕ → F32 → F32 → List ℕ
  unfolding tone_frames
  tone rate secs volume =
      let frames = to_usize (mul secs (of_int (pos rate))) in
      let step = div64 (mul64 (mul64 (lit64 2 0) pi) (lit64 440 0)) (of_ℕ64 rate) in
      tone_frames frames (lit64 0 0) step volume

module _ (bus : Device) where
  open bus use {D}

  -- The loop over the writes, on fuel; what is left to write, where it is stopped.
  unfoldable pub pump : ℕ → HdaPlayback → List ℕ → D → Option (List ℕ × HdaPlayback × D)
  pump zero p bytes d = some (bytes, p, d)
  pump (suc rounds) p [] d = some ([], p, d)
  pump (suc rounds) p (b ∷ bytes) d = do
    let (taken, d') = Stream.write bus (sd0_base p.controller) p.stream (b ∷ bytes) d
    result ← taken
    let (n, s) = result
    pump rounds (record p { stream = s }) (drop n (b ∷ bytes)) d'

  -- The tone itself, of which nothing is written if the dump ends with an error.
  unfoldable pub selftest_tone :
      (fl : Floats)
      → (D → Polls)
      → ℕ
      → DebugOpts
      → Log
      → ℕ
      → HdaPlayback
      → Floats.F32 fl
      → Floats.F32 fl
      → D
      → Option (Result (List ℕ) × HdaPlayback × D)
  unfolding tone pump start show_state
  selftest_tone fl shows spins dbg log rounds p secs volume d =
      let l0 : Link D = record { controller = p.controller; sent = []; device = d } in
      elim (show_state bus shows spins dbg.dump_state l0) [
        | none ↦ none
        | some (err e, l) ↦ some (err e, record p { controller = l.controller }, l.device)
        | some (ok u, l) ↦ do
          started ← start bus log (record p { controller = l.controller }) l.device
          let (p1, d1) = started
          pumped ← pump rounds p1 (tone fl p.rate secs volume) d1
          let (left, p2, d2) = pumped
          some (ok left, p2, d2)
      ]
