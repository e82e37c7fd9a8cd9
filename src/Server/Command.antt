-- ===== src/Server/Command.antt =====
-- server/src/main.rs: the header, the control commands and the control connection. A connection is
-- the list of the bytes that the peer sends before it closes its end.
use audiod.Prelude.{
  ℕ, zero, suc, true, false, not, ◌&&◌, ◌||◌, Option, none, some, List, [], ◌∷◌, ltb, ◌==◌,
  if◌then◌else◌, get_or,
}
use audiod.Prelude.Bytes.{le_u16, le_u32, read_exact}
use audiod.Prelude.Float.{Floats}
use audiod.Common.Audio.{
  AudioCfg, audio_cfg, format_s16_le, format_float_le, msg_mute, msg_unmute, msg_status, msg_volume,
  msg_flush,
}
use audiod.Server.State.{ServerState, Status, state_volume, set_state_volume}

-- `parse_header` of the twelve bytes.
unfoldable pub parse_header : List ℕ → Option AudioCfg
unfolding audio_cfg
parse_header buf =
    let rate = le_u32 buf 0 in
    let ch = le_u16 buf 4 in
    let fmt = le_u16 buf 6 in
    if (rate == 0) || ((ch == 0) || ltb 8 ch)
    then none
    else if not (fmt == format_s16_le) && not (fmt == format_float_le)
    then none
    else some (audio_cfg rate ch fmt)

pub data Cmd (F : Type 0) : Type 0 where
  mute unmute flush status : Cmd F
  volume : F → Cmd F

module _ (fl : Floats) where
  open fl use {F32, from_bits}

  -- `Cmd::read`: the command of an opcode, and the bytes after its payload.
  unfoldable pub read : List ℕ → ℕ → Option (Cmd F32 × List ℕ)
  read stream op =
      if op == msg_mute
      then some (mute, stream)
      else if op == msg_unmute
      then some (unmute, stream)
      else if op == msg_flush
      then some (flush, stream)
      else if op == msg_volume
      then elim (read_exact 4 stream) [
        | none ↦ none
        | some (v, rest) ↦ some (volume (from_bits (le_u32 v 0)), rest)
      ]
      else if op == msg_status
      then some (status, stream)
      else none

  -- `Cmd::apply`: the new state, and the reply to STATUS. (The mute LED follows `muted`.)
  unfoldable pub apply : ServerState → Cmd F32 → ServerState × Option (Status F32)
  unfolding set_state_volume state_volume
  apply s mute = (record s { muted = true }, none)
  apply s unmute = (record s { muted = false }, none)
  apply s flush = (s, none)
  apply s (volume g) = (set_state_volume fl s g, none)
  apply s status = (
    s,
    some (record {
      muted = s.muted;
      volume = state_volume fl s;
      active = ltb 0 s.live_clients;
      clients = s.live_clients;
      total_frames = s.total_frames;
      delay_frames = s.last_delay_frames;
      output = s.output_path;
    }),
  )

  -- The loop of `handle_control`: the state it leaves, and its replies in order. Each round takes
  -- at least five bytes, so as much fuel as there are bytes is enough.
  unfoldable pub control_loop : ℕ → ServerState → List ℕ → ServerState × List (Status F32)
  control_loop zero s stream = (s, [])
  control_loop (suc fuel) s stream = elim (read_exact 4 stream) [
    | none ↦ (s, [])
    | some (len_buf, rest) ↦ elim (le_u32 len_buf 0 == 0) [
      | false ↦ (s, [])
      | true ↦ elim (read_exact 1 rest) [
        | none ↦ (s, [])
        | some (cmd, rest') ↦ elim (read rest' (get_or cmd 0 0)) [
          | none ↦ (s, [])
          | some (c, rest'') ↦
              let (s', reply) = apply s c in
              let (end, replies) = control_loop fuel s' rest'' in
              elim reply [ none ↦ (end, replies) | some body ↦ (end, body ∷ replies) ]
        ]
      ]
    ]
  ]
