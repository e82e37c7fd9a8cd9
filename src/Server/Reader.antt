-- ===== src/Server/Reader.antt =====
-- server/src/main.rs: `reader_client`, the thread of one PCM client. What it does to the world is
-- the list of its events, in order: other threads may act between any two of them. A ring that is
-- full delays `pushed`, and nothing else.
pub mod Frames
pub mod Whole
use audiod.Prelude.{
  ℕ, zero, suc, ◌/◌, ◌%◌, Bool, true, false, not, ◌&&◌, Option, none, some, List, [], ◌∷◌, ◌++◌,
  leb, ◌==◌, if◌then◌else◌, length, get_or,
}
use audiod.Prelude.Bytes.{le_u32, read_exact}
use audiod.Prelude.Float.{Floats}
use audiod.Common.Audio.{AudioCfg, format_s16_le}
use audiod.Server.Dsp.{fold_to_stereo, f32_stereo_to_s16}
use audiod.Server.Dsp.Resampler.{Resampler, new, resample}
use audiod.Server.Command.{Cmd, mute, unmute, flush, status, volume, read}

pub data Event (F : Type 0) : Type 0 where
  -- bytes into the client's ring, and frames onto `total_frames`
  pushed : List ℕ → Event F
  counted : ℕ → Event F
  -- `request_flush`, a command applied to the shared state, `finish`
  flushed finished : Event F
  applied : Cmd F → Event F

-- What stands next on the connection.
pub data Frame (F : Type 0) : Type 0 where
  command : Cmd F → Frame F
  chunk : List ℕ → Frame F

module _ (fl : Floats) where
  open fl use {F32}

  -- A length, and then that many bytes, or an opcode where the length is 0. `none` ends the loop:
  -- the end of the stream (also amid a chunk) or an unknown opcode.
  unfoldable pub read_frame : List ℕ → Option (Frame F32 × List ℕ)
  read_frame stream = elim (read_exact 4 stream) [
    | none ↦ none
    | some (len_buf, rest) ↦
        let len = le_u32 len_buf 0 in
        elim (len == 0) [
          | true ↦ elim (read_exact 1 rest) [
            | none ↦ none
            | some (cmd, rest') ↦ elim (read fl rest' (get_or cmd 0 0)) [
              | none ↦ none
              | some (c, rest'') ↦ some (command c, rest'')
            ]
          ]
          | false ↦ elim (read_exact len rest) [
            | none ↦ none
            | some (bytes, rest') ↦ some (chunk bytes, rest')
          ]
        ]
  ]

  -- A client that already speaks the mixer's format needs no conversion.
  abbrev pub is_direct : AudioCfg → ℕ → Bool
  is_direct cfg mix_rate =
      (cfg.format == format_s16_le) && ((cfg.channels == 2) && (cfg.rate == mix_rate))

  -- The samples at the mix rate, and the resampler's next state.
  unfoldable pub to_mix_rate : Option (Resampler F32) → List F32 → List F32 × Option (Resampler F32)
  to_mix_rate none folded = (folded, none)
  to_mix_rate (some r) folded = let (out, r') = resample fl r folded in (out, some r')

  -- One chunk of PCM.
  unfoldable pub on_chunk :
      AudioCfg → ℕ → Option (Resampler F32) → List ℕ → List (Event F32) × Option (Resampler F32)
  unfolding to_mix_rate
  on_chunk cfg mix_rate resampler bytes =
      if is_direct cfg mix_rate
      then (
        if length bytes % 4 == 0 then pushed bytes ∷ counted (length bytes / 4) ∷ [] else [],
        resampler,
      )
      else let folded = fold_to_stereo fl bytes cfg.format cfg.channels in
        let (resampled, resampler') = to_mix_rate resampler folded in
        let s16 = f32_stereo_to_s16 fl resampled in
        (if length s16 / 4 == 0 then [] else pushed s16 ∷ counted (length s16 / 4) ∷ [], resampler')

  unfoldable pub on_command : Cmd F32 → Event F32
  on_command flush = flushed
  on_command c = applied c

  -- The loop. Its fuel is the number of rounds after which SHUTDOWN is seen; a round takes at
  -- least five bytes, so a client that is not shut down has as much fuel as bytes.
  unfoldable pub reader_loop : ℕ → AudioCfg → ℕ → Option (Resampler F32) → List ℕ → List (Event F32)
  unfolding read_frame on_chunk on_command
  reader_loop zero cfg mix_rate resampler stream = finished ∷ []
  reader_loop (suc fuel) cfg mix_rate resampler stream = elim (read_frame stream) [
    | none ↦ finished ∷ []
    | some (frame, rest) ↦ elim frame [
      | command c ↦ on_command c ∷ reader_loop fuel cfg mix_rate resampler rest
      | chunk bytes ↦
          let (events, resampler') = on_chunk cfg mix_rate resampler bytes in
          events ++ reader_loop fuel cfg mix_rate resampler' rest
    ]
  ]

  -- The thread: nothing at all for a peer that is not allowed, or beyond the limit of clients.
  unfoldable pub reader_client : Bool → ℕ → ℕ → ℕ → Bool → ℕ → AudioCfg → List ℕ → List (Event F32)
  unfolding reader_loop
  reader_client peer_allowed live_clients max_clients mix_rate is_linear rounds cfg stream =
      if not peer_allowed
      then []
      else if leb max_clients live_clients
      then []
      else reader_loop rounds cfg mix_rate (new fl cfg.rate mix_rate is_linear) stream
