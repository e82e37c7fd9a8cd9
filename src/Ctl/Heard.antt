-- ===== src/Ctl/Heard.antt =====
-- What the server makes of the control client's messages.
use audiod.Prelude.{ℕ, suc, ◌^◌, ◌<◌, ◌≡◌, refl, Option, none, some, List, [], ◌∷◌, ◌++◌}
use audiod.Prelude.Bytes.{u32_le, read_exact-append}
use audiod.Prelude.Float.{Floats}
use audiod.Common.Audio.{msg_mute, msg_unmute, msg_volume, msg_status}
use audiod.Server.State.{ServerState, Status}
use audiod.Server.Command
use audiod.Server.Command.{Cmd, control_loop, apply, read}
use audiod.Server.Reader.Frames.{le_u32-u32_le}
use audiod.Ctl.{Request, mute, unmute, status, volume, message}

module _ (fl : Floats) where
  open fl use {F32, from_bits, to_bits, lit, clamp}

  -- What a request asks the server for; a volume is kept between 0 and 100.
  abbrev pub command_of : Request F32 → Cmd F32
  command_of mute = Command.mute
  command_of unmute = Command.unmute
  command_of status = Command.status
  command_of (volume pct) = Command.volume (clamp (lit 0 0) (lit 100 0) pct)

  -- A reply in front of those to come.
  abbrev pub with_reply :
      Option (Status F32) → ServerState × List (Status F32) → ServerState × List (Status F32)
  with_reply none after = after
  with_reply (some body) after = (after.0, body ∷ after.1)

  -- The server applies the command of each message that the control client sends, replies if it is
  -- the request for the status, and goes on behind it, if the bits of a number stand for that
  -- number again and those of a percentage are 32.
  pub control_loop-message :
      (r : Request F32) (fuel : ℕ) (s : ServerState) (rest : List ℕ)
      → ((x : F32) → from_bits (to_bits x) ≡ x)
      → ((x : F32) → to_bits (clamp (lit 0 0) (lit 100 0) x) < 2 ^ 32)
      → control_loop fl (suc fuel) s (message fl r ++ rest) ≡ (
          let (s', reply) = apply fl s (command_of r) in
          with_reply reply (control_loop fl fuel s' rest))
  unfolding control_loop message read apply
  control_loop-message mute fuel s rest i b =
      rw
        (
          read_exact-append 4 (u32_le 0) (msg_mute ∷ rest) refl,
          read_exact-append 1 (msg_mute ∷ []) rest refl,
          control_loop,
        )
        refl
  control_loop-message unmute fuel s rest i b =
      rw
        (
          read_exact-append 4 (u32_le 0) (msg_unmute ∷ rest) refl,
          read_exact-append 1 (msg_unmute ∷ []) rest refl,
          control_loop,
        )
        refl
  control_loop-message status fuel s rest i b =
      rw
        (
          read_exact-append 4 (u32_le 0) (msg_status ∷ rest) refl,
          read_exact-append 1 (msg_status ∷ []) rest refl,
          control_loop,
        )
        refl
  control_loop-message (volume pct) fuel s rest i b =
      let x = clamp (lit 0 0) (lit 100 0) pct in
      let bits = u32_le (to_bits x) in
      rw
        (
          read_exact-append 4 (u32_le 0) (msg_volume ∷ bits ++ rest) refl,
          read_exact-append 1 (msg_volume ∷ []) (bits ++ rest) refl,
          read_exact-append 4 bits rest refl,
          le_u32-u32_le (to_bits x) (b pct),
          i x,
          control_loop,
          read,
        )
        refl
