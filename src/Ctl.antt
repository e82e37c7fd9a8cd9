-- ===== src/Ctl.antt =====
-- ctl/src/main.rs: the bytes that the control client sends behind its header.
pub mod Args
pub mod Heard
use audiod.Prelude.{ℕ, List, [], ◌∷◌, ◌++◌, replicate}
use audiod.Prelude.Bytes.{u32_le}
use audiod.Prelude.Float.{Floats}
use audiod.Common.Audio.{hdr_sz, msg_mute, msg_unmute, msg_volume, msg_status}
use audiod.Server.Command
use audiod.Server.Command.{Cmd}

-- The command line's request; the number of `volume` is in percent.
pub data Request (F : Type 0) : Type 0 where
  mute unmute status : Request F
  volume : F → Request F

-- The header of a control client, which is all zero.
abbrev pub control_header : List ℕ
control_header = replicate hdr_sz 0

module _ (fl : Floats) where
  open fl use {F32, to_bits, lit, clamp}

  unfoldable pub message : Request F32 → List ℕ
  message mute = u32_le 0 ++ msg_mute ∷ []
  message unmute = u32_le 0 ++ msg_unmute ∷ []
  message status = u32_le 0 ++ msg_status ∷ []
  message (volume pct) =
      u32_le 0 ++ (msg_volume ∷ []) ++ u32_le (to_bits (clamp (lit 0 0) (lit 100 0) pct))
