-- ===== src/Shim/Drain.antt =====
-- shim/src/lib.rs: the drain thread. What the socket and `snd_pcm_close` do meanwhile is an argument
-- of each round.
use audiod.Prelude.{
  ℕ, ◌+◌, ◌*◌, min, Bool, true, false, not, ◌&&◌, ◌||◌, Option, none, some, List, [], ◌∷◌, ◌++◌,
  ◌==◌, if◌then◌else◌, length,
}
use audiod.Common.Audio.{drain_chunk, msg_flush}
use audiod.Common.Ring.{Ring}
use audiod.Common.Ring
use audiod.Shim.{Pcm, header_bytes, frame_bytes}

-- One turn of the loop in `reconnect_audiod`: the stop flag is seen, or the server is not there, or
-- it is.
pub data Attempt : Type 0 where
  stopped refused accepted : Attempt

-- The loop: whether it connects, and the pauses in milliseconds. A finite list of attempts is what
-- has happened so far; at its end the thread is still trying, which counts as no connection.
unfoldable pub reconnect_loop : List Attempt → ℕ → Bool × List ℕ
reconnect_loop [] backoff = (false, [])
reconnect_loop (stopped ∷ rest) backoff = (false, [])
reconnect_loop (accepted ∷ rest) backoff = (true, [])
reconnect_loop (refused ∷ rest) backoff =
    let (ok, pauses) = reconnect_loop rest (min (backoff * 2) 2000) in (ok, backoff ∷ pauses)

-- The header that is stashed, as it goes out again.
abbrev pub stashed_header : Option (ℕ × ℕ × ℕ) → List ℕ
stashed_header none = []
stashed_header (some (rate, channels, format)) = header_bytes rate channels format

-- What the surroundings do in one round.
pub record Env : Type 0 where
  pub cmd_sent : Bool
  pub flush_sent : Bool
  pub chunk_sent : Bool
  pub attempts : List Attempt
  pub header_sent : Bool

-- `reconnect_audiod`: the state, and whether the thread goes on.
unfoldable pub reconnect : Env → Pcm → Pcm × Bool
unfolding reconnect_loop
reconnect env h =
    if (reconnect_loop env.attempts 50).0
    then (
      record h {
        connected = true;
        sent = if env.header_sent then stashed_header h.header else [];
        total_written = 0;
        total_pushed = 0;
        play_start = none;
      },
      true,
    )
    else (record h { connected = false; sent = [] }, false)

-- A frame that is sent, or a connection that is made anew in its place.
unfoldable pub send_or_reconnect : Env → Bool → List ℕ → Pcm → Pcm × Bool
unfolding reconnect
send_or_reconnect env sends payload h =
    if sends then (record h { sent = h.sent ++ frame_bytes payload }, true) else reconnect env h

-- The pending mute or unmute.
unfoldable pub send_mute : Env → Pcm → Pcm × Bool
unfolding send_or_reconnect
send_mute env h =
    let taken = record h { mute_cmd = 0 } in
    if not (h.mute_cmd == 0) && h.connected
    then send_or_reconnect env env.cmd_sent (h.mute_cmd ∷ []) taken
    else (taken, true)

-- The pending flush.
unfoldable pub send_flush : Env → Pcm → Pcm × Bool
unfolding send_or_reconnect
send_flush env h =
    let taken = record h { flush_cmd = false } in
    if h.flush_cmd && h.connected
    then send_or_reconnect env env.flush_sent (msg_flush ∷ []) taken
    else (taken, true)

-- One chunk. A chunk whose write fails is lost; so is one taken while there is no socket.
unfoldable pub send_chunk : Env → Pcm → Pcm × Bool
unfolding send_or_reconnect
send_chunk env h = elim (Ring.pop h.ring drain_chunk) [
  | none ↦ (h, true)
  | some (bytes, ring) ↦
      let popped = record h { ring = ring } in
      if (length bytes == 0) || not h.connected
      then (popped, true)
      else if env.chunk_sent
      then (
        record popped {
          sent = h.sent ++ frame_bytes bytes;
          total_written = h.total_written + length bytes;
        },
        true,
      )
      else send_or_reconnect env false bytes popped
]

-- A round of `drain_thread_loop`: the state, and whether there is another.
unfoldable pub drain_round : Env → Pcm → Pcm × Bool
unfolding send_mute send_flush send_chunk
drain_round env h =
    let (h1, ok1) = send_mute env h in
    let (h2, ok2) = send_flush env h1 in
    if h.drain_stop
    then (h, false)
    else if not ok1
    then (h1, false)
    else if not ok2
    then (h2, false)
    else send_chunk env h2

unfoldable pub drain_loop : List Env → Pcm → Pcm
unfolding drain_round
drain_loop [] h = h
drain_loop (env ∷ envs) h =
    let (h', more) = drain_round env h in elim more [ true ↦ drain_loop envs h' | false ↦ h' ]
