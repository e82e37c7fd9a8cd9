-- ===== src/Shim/Output.antt =====
-- shim/src/lib.rs: the buffer for ALSA's own messages, `SndOutput`. No call writes to it.
use audiod.Prelude.{ℕ, Bool, true, false, Option, none, some, List, replicate}
use audiod.Prelude.Int.{ℤ, pos}
use audiod.Shim.Calls.{einval}

pub record SndOutput : Type 0 where
  pub buf : List ℕ
  pub position : ℕ

abbrev pub output_size : ℕ
output_size = 4096

abbrev pub new_output : SndOutput
new_output = record { buf = replicate output_size 0; position = 0 }

unfoldable pub clear_output : SndOutput → SndOutput
clear_output o = record o { position = 0 }

-- `snd_output_buffer_open`, over the pointer's target.
unfoldable pub buffer_open : Option (Option SndOutput) → Option (Option SndOutput) × ℤ
buffer_open none = (none, einval)
buffer_open (some old) = (some (some new_output), pos 0)

-- `snd_output_buffer_string`: the buffer, where both pointers are given, and the return value.
unfoldable pub buffer_string : Option SndOutput → Bool → Option (List ℕ) × ℤ
buffer_string none has_target = (none, einval)
buffer_string (some o) false = (none, einval)
buffer_string (some o) true = (some o.buf, pos o.position)

unfoldable pub output_close : Option SndOutput → Option SndOutput × ℤ
output_close none = (none, einval)
output_close (some o) = (none, pos 0)

unfoldable pub output_flush : Option SndOutput → Option SndOutput × ℤ
unfolding clear_output
output_flush none = (none, einval)
output_flush (some o) = (some (clear_output o), pos 0)
