-- ===== src/Shim/Status/Round.antt =====
-- What an application reads from a status buffer.
use audiod.Prelude.{ℕ, ◌^◌, ◌<◌, ◌≡◌, refl, some, List, arith, replicate}
use audiod.Prelude.Int.{pos}
use audiod.Prelude.Float.{Floats}
use audiod.Shim.{Pcm, PcmState, open_state, setup, prepared, running, paused}
use audiod.Shim.Calls.{pcm_state}
use audiod.Shim.Model.{pcm_delay_avail}
use audiod.Shim.Delay.{delay-add-avail}
use audiod.Shim.Status.{
  state_code, set_state, set_delay, set_avail, delay_of, avail_update, status, get_avail, get_delay,
  get_state,
}

state_code-lt : (s : PcmState) → state_code s < 2 ^ 31
state_code-lt open_state = omega arith
state_code-lt setup = omega arith
state_code-lt prepared = omega arith
state_code-lt running = omega arith
state_code-lt paused = omega arith

buffer_lem :
    (code delay avail : ℕ)
    → code < 2 ^ 31
    → delay < 2 ^ 63
    → avail < 2 ^ 63
    → let b = set_avail avail (set_delay delay (set_state code (replicate 128 0))) in
      (get_state (some b) ≡ pos code)
      × (get_delay (some b) ≡ pos delay)
      × (get_avail (some b) ≡ pos avail)
unfolding set_state set_delay set_avail get_state get_delay get_avail
buffer_lem code delay avail p q r = (ground arith, ground arith, ground arith)

module _ (fl : Floats) where
  -- A status buffer that has been filled from a handle reads as the handle's state, and as the
  -- delay and the room that the calls for these give at the same time, whatever the buffer held
  -- before.
  pub status_lem :
      (h : Pcm) (now : ℕ) (buf : List ℕ)
      → let (filled, result) = status fl (some h) now (some buf) in
        (result ≡ pos 0)
        × (get_state filled ≡ pos (state_code (pcm_state (some h))))
        × ((d : ℕ) × (delay_of fl (some h) now ≡ (some d, pos 0)) × (get_delay filled ≡ pos d))
        × (get_avail filled ≡ pos (avail_update fl (some h) now))
  unfolding status delay_of avail_update pcm_state
  status_lem h now buf =
      let a = delay-add-avail fl h now in
      let (delay, avail) = pcm_delay_avail fl h now in
      let b =
        buffer_lem (state_code h.state) delay avail (state_code-lt h.state) (omega arith)
          (omega arith) in
      (refl, b.0, (delay, refl, b.1), b.2)
