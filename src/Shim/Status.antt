-- ===== src/Shim/Status.antt =====
-- shim/src/lib.rs: what an application asks a handle for, into memory of its own: `StatusBuf`, the
-- delay and the room, the poll descriptors and the parameters. A null pointer is `none`.
pub mod Round
use audiod.Prelude.{
  ℕ, ◌+◌, ◌-◌, ◌*◌, ◌/◌, ◌%◌, ◌^◌, Option, none, some, List, ◌++◌, ltb, if◌then◌else◌, replicate,
  blit,
}
use audiod.Prelude.Bytes.{u32_le, le_u32}
use audiod.Prelude.Int.{ℤ, pos, negsuc}
use audiod.Prelude.Float.{Floats}
use audiod.Common.Audio.{shim_buffer_frames, shim_server_frames}
use audiod.Shim.{Pcm, PcmState, open_state, setup, prepared, running, paused}
use audiod.Shim.Calls.{einval}
use audiod.Shim.Model.{pcm_delay_avail}

abbrev pub state_code : PcmState → ℕ
state_code open_state = 0
state_code setup = 1
state_code prepared = 2
state_code running = 3
state_code paused = 6

-- 64 bits, and those read as a signed number.
abbrev pub u64_le : ℕ → List ℕ
u64_le n = u32_le (n % 2 ^ 32) ++ u32_le (n / 2 ^ 32 % 2 ^ 32)

abbrev pub le_u64 : List ℕ → ℕ → ℕ
le_u64 bs i = le_u32 bs i + 2 ^ 32 * le_u32 bs (i + 4)

abbrev pub i64_of : ℕ → ℤ
i64_of w = if ltb w (2 ^ 63) then pos w else negsuc (2 ^ 64 - 1 - w)

abbrev pub i32_of : ℕ → ℤ
i32_of w = if ltb w (2 ^ 31) then pos w else negsuc (2 ^ 32 - 1 - w)

abbrev pub status_size : ℕ
status_size = 128

-- `StatusBuf::set_state`, `set_delay` and `set_avail`.
unfoldable pub set_state : ℕ → List ℕ → List ℕ
set_state v b = blit b 0 (u32_le v)

unfoldable pub set_delay : ℕ → List ℕ → List ℕ
set_delay v b = blit b 56 (u64_le v)

unfoldable pub set_avail : ℕ → List ℕ → List ℕ
set_avail v b = blit b 64 (u64_le v)

module _ (fl : Floats) where
  -- `snd_pcm_delay` and `snd_pcm_avail_update` (which `snd_pcm_avail` calls), at a time.
  unfoldable pub delay_of : Option Pcm → ℕ → Option ℕ × ℤ
  delay_of none now = (none, einval)
  delay_of (some h) now = (some (pcm_delay_avail fl h now).0, pos 0)

  unfoldable pub avail_update : Option Pcm → ℕ → ℕ
  avail_update none now = 0
  avail_update (some h) now = (pcm_delay_avail fl h now).1

  -- `snd_pcm_status` into the 128 bytes at a pointer: those bytes, and the return value.
  unfoldable pub status : Option Pcm → ℕ → Option (List ℕ) → Option (List ℕ) × ℤ
  unfolding set_state set_delay set_avail
  status none now buf = (buf, einval)
  status (some h) now none = (none, einval)
  status (some h) now (some buf) =
      let (delay, avail) = pcm_delay_avail fl h now in
      let cleared = replicate status_size 0 in
      (some (set_avail avail (set_delay delay (set_state (state_code h.state) cleared))), pos 0)

-- `snd_pcm_status_get_avail`, `_get_delay` and `_get_state`.
unfoldable pub get_avail : Option (List ℕ) → ℤ
get_avail none = pos (shim_buffer_frames - shim_server_frames)
get_avail (some b) = i64_of (le_u64 b 64)

unfoldable pub get_delay : Option (List ℕ) → ℤ
get_delay none = pos 0
get_delay (some b) = i64_of (le_u64 b 56)

unfoldable pub get_state : Option (List ℕ) → ℤ
get_state none = pos (state_code open_state)
get_state (some b) = i32_of (le_u32 b 0)
