-- ===== src/Shim/Calls.antt =====
-- shim/src/lib.rs: the calls that an application makes on a handle. A call gives the new state and
-- its return value, an errno negated; on the null handle every one of them returns at once.
use audiod.Prelude.{
  ℕ, ◌+◌, ◌*◌, ◌%◌, ◌^◌, max, Bool, true, false, not, ◌&&◌, ◌||◌, Option, none, some, List, [], ◌∷◌,
  ◌++◌, ◌==◌, if◌then◌else◌,
}
use audiod.Prelude.Int.{ℤ, pos, negsuc}
use audiod.Common.Audio.{msg_mute, msg_unmute}
use audiod.Common.Ring.{Ring}
use audiod.Common.Ring
use audiod.Shim.{Pcm, PcmState, open_state, setup, prepared, running, paused, header_bytes}
use audiod.Shim.Model.{frame_bytes_of}

-- -EINVAL, -EPIPE, -EIO
abbrev pub einval : ℤ
einval = negsuc 21

abbrev pub epipe : ℤ
epipe = negsuc 31

abbrev pub eio : ℤ
eio = negsuc 4

-- `snd_pcm_open` once it is connected, in a process that has made no other call yet: the flags that
-- the handles of a process share are as they start.
unfoldable pub opened : ℕ → Pcm
opened ring_buffer_size = record {
  connected = true;
  sent = [];
  rate = 0;
  channels = 0;
  format = 2;
  configured = false;
  state = setup;
  ring = Ring.new ring_buffer_size;
  drain_stop = false;
  total_pushed = 0;
  total_written = 0;
  play_start = none;
  header = none;
  mute_cmd = 0;
  last_silent = false;
  flush_cmd = false;
}

-- `snd_pcm_close` up to the join: the drain thread is told to stop.
unfoldable pub close_begin : Pcm → Pcm
close_begin h = record h { drain_stop = true; ring = Ring.interrupt h.ring }

unfoldable pub prepare : Pcm → Pcm × ℤ
prepare h = (record h { state = prepared; play_start = none }, pos 0)

unfoldable pub drain : Pcm → Pcm × ℤ
drain h = (record h { state = prepared }, pos 0)

abbrev pub is_running : PcmState → Bool
is_running running = true
is_running _ = false

unfoldable pub drop_pcm : Pcm → Pcm × ℤ
drop_pcm h = (
  record h {
    ring = Ring.clear h.ring;
    total_pushed = 0;
    total_written = 0;
    play_start = none;
    state = prepared;
    flush_cmd = if is_running h.state || h.configured then true else h.flush_cmd;
  },
  pos 0,
)

unfoldable pub start : Pcm → Pcm × ℤ
start h = (record h { state = running }, pos 0)

unfoldable pub pause : Pcm → Bool → Pcm × ℤ
pause h true = (record h { state = paused; flush_cmd = true }, pos 0)
pause h false = (record h { state = running }, pos 0)

unfoldable pub set_format : Pcm → ℕ → Pcm × ℤ
set_format h fmt = (record h { format = fmt }, pos 0)

-- `snd_pcm_hw_params_set_channels`, and `_set_channels_near` of a value.
unfoldable pub set_channels : Pcm → ℕ → Pcm × ℤ
set_channels h val = (record h { channels = val }, pos 0)

unfoldable pub set_rate_near : Pcm → ℕ → Pcm × ℤ
set_rate_near h val = (record h { rate = val }, pos 0)

-- `commit_configured`; `sends` says whether the socket takes the header.
unfoldable pub commit_configured : Pcm → Bool → Pcm × ℤ
commit_configured h sends =
    let fmt = h.format % 2 ^ 16 in
    let stashed = record h { header = some (h.rate, h.channels, fmt) } in
    if (h.rate == 0) || (h.channels == 0)
    then (h, einval)
    else if h.configured
    then (h, pos 0)
    else if not h.connected
    then (h, epipe)
    else if not sends
    then (stashed, eio)
    else (
      record stashed {
        sent = h.sent ++ header_bytes h.rate h.channels fmt;
        configured = true;
        state = prepared;
      },
      pos 0,
    )

-- `snd_pcm_set_params`; `snd_pcm_hw_params` is `commit_configured` itself.
unfoldable pub set_params : Pcm → ℕ → ℕ → ℕ → Bool → Pcm × ℤ
unfolding commit_configured
set_params h format channels rate sends =
    commit_configured (record h { format = format; channels = channels; rate = rate }) sends

abbrev pub all_zero : List ℕ → Bool
all_zero [] = true
all_zero (b ∷ bs) = (b == 0) && all_zero bs

-- The playhead's anchor, set by the first write.
abbrev pub anchor : Option ℕ → ℕ → Option ℕ
anchor none now = some now
anchor (some t0) now = some t0

-- What `snd_pcm_writei` does before it pushes: the anchor, and a mute or unmute where the samples
-- turn to silence or back.
unfoldable pub note_silence : Pcm → ℕ → List ℕ → Pcm
note_silence h now bytes =
    let silent = all_zero bytes in
    record h {
      play_start = anchor h.play_start now;
      last_silent = silent;
      mute_cmd =
          if silent && not h.last_silent
          then msg_mute
          else if not silent && h.last_silent
          then msg_unmute
          else h.mute_cmd;
    }

-- `snd_pcm_writei` of `size` frames, which are `bytes`; `none` in the place of the buffer is a null
-- pointer, and `none` in the place of the result a thread that waits for room in the ring.
unfoldable pub writei : Pcm → ℕ → Option (List ℕ) → ℕ → Pcm × Option ℤ
unfolding note_silence
writei h now none size = (h, some einval)
writei h now (some bytes) size =
    let noted = note_silence h now bytes in
    if not h.configured
    then (h, some epipe)
    else if h.channels == 0
    then (h, some einval)
    else elim (Ring.push h.ring bytes) [
      | none ↦ (noted, none)
      | some ring ↦ (
        record noted { ring = ring; total_pushed = h.total_pushed + size * frame_bytes_of h },
        some (pos size),
      )
    ]

-- `snd_pcm_frames_to_bytes`, which is 0 without a handle.
unfoldable pub frames_to_bytes : Option Pcm → ℤ → ℕ
frames_to_bytes none frames = 0
frames_to_bytes (some h) (negsuc n) = 0
frames_to_bytes (some h) (pos frames) =
    frames * (frame_bytes_of (record h { channels = max h.channels 1 }))

-- `snd_pcm_state`
unfoldable pub pcm_state : Option Pcm → PcmState
pcm_state none = open_state
pcm_state (some h) = h.state
