-- ===== src/Shim.antt =====
-- shim/src/lib.rs: the library that the application calls in place of libasound. The state of one
-- handle, with the three process-wide flags and the connection's outgoing bytes; the children have
-- its calls and its drain thread.
pub mod Model
pub mod Calls
pub mod Delay
pub mod Drain
pub mod Wire
pub mod Stream
pub mod Formats
pub mod Params
pub mod Send
pub mod Status
pub mod Symbols
pub mod Fixed
pub mod Poll
pub mod Output
pub mod Texts
use audiod.Prelude.{ℕ, ◌%◌, ◌^◌, Bool, Option, List, [], ◌∷◌, ◌++◌, length}
use audiod.Prelude.Bytes.{u16_le, u32_le}
use audiod.Common.Ring.{Ring}

-- The states that `snd_pcm_state` reports: SETUP, PREPARED, RUNNING, PAUSED, and OPEN for no handle.
pub data PcmState : Type 0 where
  open_state setup prepared running paused : PcmState

-- `snd_pcm_t`. Times are nanoseconds of a monotonic clock.
pub record Pcm : Type 0 where
  -- whether `sock` holds a descriptor, and what was sent through it
  pub connected : Bool
  pub sent : List ℕ
  pub rate : ℕ
  pub channels : ℕ
  pub format : ℕ
  pub configured : Bool
  pub state : PcmState
  pub ring : Ring
  pub drain_stop : Bool
  pub total_pushed : ℕ
  pub total_written : ℕ
  pub play_start : Option ℕ
  pub header : Option (ℕ × ℕ × ℕ)
  -- MUTE_CMD, LAST_SILENT and FLUSH_CMD
  pub mute_cmd : ℕ
  pub last_silent : Bool
  pub flush_cmd : Bool

-- `send_header`: the rate, the low 16 bits of the channels, the format, four zero bytes.
unfoldable pub header_bytes : ℕ → ℕ → ℕ → List ℕ
header_bytes rate channels format =
    u32_le rate ++ u16_le (channels % 2 ^ 16) ++ u16_le format ++ (0 ∷ 0 ∷ 0 ∷ 0 ∷ [])

-- `send_frame`: a length prefix and the payload, whether it is PCM or a command.
unfoldable pub frame_bytes : List ℕ → List ℕ
frame_bytes payload = u32_le (length payload % 2 ^ 32) ++ payload
