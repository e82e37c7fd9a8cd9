-- ===== src/Shim/Delay.antt =====
-- The virtual device that the application sees.
use native.Mathlib.Nat.{add-mul-div_right}
use audiod.Prelude.{ℕ, ◌+◌, ◌*◌, ◌/◌, ◌≤◌, ◌≡◌, ◌≢◌, true, ◌||◌, some, List, arith}
use audiod.Prelude.Int.{pos, ◌≤ℤ◌}
use audiod.Prelude.Float.{Floats}
use audiod.Common.Ring
use audiod.Shim.{Pcm}
use audiod.Shim.Model.{frame_bytes_of, consumed_frames, pcm_delay_avail}
use audiod.Shim.Calls.{writei, drop_pcm, is_running}

div-add-mul : (a n d : ℕ) → d ≢ 0 → (a + n * d) / d ≡ a / d + n
div-add-mul a n d h = add-mul-div_right a n {z = d} (omega arith)

module _ (fl : Floats) where
  -- The delay and the room that are reported make up the advertised buffer of 8192 frames, and the
  -- delay is at least 4096.
  pub delay-add-avail :
      (h : Pcm) (now : ℕ)
      → let (delay, avail) = pcm_delay_avail fl h now in (delay + avail ≡ 8192) × (4096 ≤ delay)
  unfolding pcm_delay_avail
  delay-add-avail h now = ground arith

  -- A push that the ring takes changes of all that the delay reads only the bytes pushed.
  writei_done :
      (h : Pcm) (t0 now size : ℕ) (bytes : List ℕ)
      → h.play_start ≡ some t0
      → (writei h now (some bytes) size).1 ≡ some (pos size)
      → let h' = (writei h now (some bytes) size).0 in
        (h'.total_pushed ≡ h.total_pushed + size * frame_bytes_of h)
        × (frame_bytes_of h' ≡ frame_bytes_of h)
        × (consumed_frames fl h' now ≡ consumed_frames fl h now)
  unfolding writei consumed_frames
  writei_done h t0 now size bytes a e = ground arith

  delay_more :
      (h h' : Pcm) (now size : ℕ)
      → h'.total_pushed ≡ h.total_pushed + size * frame_bytes_of h
      → frame_bytes_of h' ≡ frame_bytes_of h
      → consumed_frames fl h' now ≡ consumed_frames fl h now
      → frame_bytes_of h ≢ 0
      → consumed_frames fl h now ≤ℤ pos (h.total_pushed / frame_bytes_of h)
      → size ≤ (pcm_delay_avail fl h now).1
      → ((pcm_delay_avail fl h' now).0 ≡ (pcm_delay_avail fl h now).0 + size)
        × ((pcm_delay_avail fl h' now).1 + size ≡ (pcm_delay_avail fl h now).1)
  unfolding pcm_delay_avail
  delay_more h h' now size p q r b c d =
      ground (arith, div-add-mul (h.total_pushed) size (frame_bytes_of h) b)

  -- If the playhead runs and has not overtaken the application, and the frames are not of size 0,
  -- a write that returns its size, no larger than the room, moves just that many frames from the
  -- room to the delay at the time of the write.
  pub delay-writei :
      (h : Pcm) (t0 now size : ℕ) (bytes : List ℕ)
      → h.play_start ≡ some t0
      → frame_bytes_of h ≢ 0
      → consumed_frames fl h now ≤ℤ pos (h.total_pushed / frame_bytes_of h)
      → size ≤ (pcm_delay_avail fl h now).1
      → (writei h now (some bytes) size).1 ≡ some (pos size)
      → let h' = (writei h now (some bytes) size).0 in
        ((pcm_delay_avail fl h' now).0 ≡ (pcm_delay_avail fl h now).0 + size)
        × ((pcm_delay_avail fl h' now).1 + size ≡ (pcm_delay_avail fl h now).1)
  delay-writei h t0 now size bytes a b c d e =
      let (p, q, r) = writei_done h t0 now size bytes a e in
      delay_more h (writei h now (some bytes) size).0 now size p q r b c d

-- After a drop the ring is empty, the delay is 4096 at any time, and a flush is pending if the
-- device ran or was configured.
drop_lem :
    (fl : Floats) (h : Pcm) (now : ℕ)
    → let h' = (drop_pcm h).0 in
      (h'.ring.filled ≡ 0)
      × ((pcm_delay_avail fl h' now).0 ≡ 4096)
      × ((is_running h.state || h.configured) ≡ true → h'.flush_cmd ≡ true)
unfolding drop_pcm Ring.clear pcm_delay_avail
drop_lem fl h now = (ground arith, ground arith, λ e. ground arith)
