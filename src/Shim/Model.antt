-- ===== src/Shim/Model.antt =====
-- shim/src/lib.rs: the virtual device, `pcm_delay_avail`.
use audiod.Prelude.{ℕ, ◌+◌, ◌-◌, ◌*◌, ◌/◌, ◌%◌, ◌^◌, min, none, some, ◌==◌, if◌then◌else◌}
use audiod.Prelude.Int.{ℤ, pos, ◌-ℤ◌, pos_part}
use audiod.Prelude.Float.{Floats}
use audiod.Common.Audio.{pcm_format_bytes, shim_buffer_frames, shim_server_frames}
use audiod.Shim.{Pcm}

-- Bytes in a frame of the handle's format.
abbrev pub frame_bytes_of : Pcm → ℕ
frame_bytes_of h = pcm_format_bytes (h.format % 2 ^ 16) * h.channels

module _ (fl : Floats) where
  open fl use {of_ℕ64, add64, mul64, div64, lit64, to_isize64}

  -- `rate as f64 * t0.elapsed().as_secs_f64()` as an integer, `elapsed` in nanoseconds.
  unfoldable pub played_frames : ℕ → ℕ → ℤ
  played_frames rate elapsed =
      let secs =
        add64 (of_ℕ64 (elapsed / 1000000000))
          (div64 (of_ℕ64 (elapsed % 1000000000)) (lit64 1000000000 0)) in
      to_isize64 (mul64 (of_ℕ64 rate) secs)

  unfoldable pub consumed_frames : Pcm → ℕ → ℤ
  unfolding played_frames
  consumed_frames h now = elim h.play_start [
    | none ↦ pos 0
    | some t0 ↦ played_frames h.rate (now - t0)
  ]

  unfoldable pub pcm_delay_avail : Pcm → ℕ → ℕ × ℕ
  unfolding consumed_frames ◌-ℤ◌
  pcm_delay_avail h now =
      let fb = frame_bytes_of h in
      let pushed_frames = h.total_pushed / fb in
      let unplayed = pos_part (pos pushed_frames -ℤ consumed_frames h now) + shim_server_frames in
      let delay = min unplayed shim_buffer_frames in
      if fb == 0
      then (shim_server_frames, shim_buffer_frames - shim_server_frames)
      else (delay, shim_buffer_frames - delay)
