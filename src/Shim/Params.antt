-- ===== src/Shim/Params.antt =====
-- shim/src/lib.rs: the blob of hardware parameters, 608 bytes of the application's memory.
use audiod.Prelude.{ℕ, Option, none, some, List, ◌==◌, if◌then◌else◌, replicate, blit}
use audiod.Prelude.Bytes.{u16_le, u32_le, le_u32}
use audiod.Prelude.Int.{ℤ, pos}
use audiod.Common.Audio.{shim_buffer_frames}
use audiod.Shim.Calls.{einval}

abbrev pub hw_params_size : ℕ
hw_params_size = 608

-- `snd_pcm_hw_params_any`, over the blob's bytes.
unfoldable pub params_any : Option (List ℕ) → Option (List ℕ)
params_any none = none
params_any (some blob) =
    some (blit (blit (replicate hw_params_size 0) 0 (u32_le 48000)) 6 (u16_le 2))

-- What `snd_pcm_hw_params_set_rate_near` stores in the blob.
unfoldable pub params_set_rate : Option (List ℕ) → ℕ → Option (List ℕ)
params_set_rate none rate = none
params_set_rate (some blob) rate = some (blit blob 0 (u32_le rate))

-- `snd_pcm_hw_params_get_rate`
unfoldable pub params_get_rate : Option (List ℕ) → ℕ
params_get_rate none = 48000
params_get_rate (some blob) = let rate = le_u32 blob 0 in if rate == 0 then 48000 else rate

-- `snd_pcm_hw_params_copy`: the target's bytes, and the return value.
unfoldable pub params_copy : Option (List ℕ) → Option (List ℕ) → Option (List ℕ) × ℤ
params_copy none src = (none, einval)
params_copy (some dst) none = (some dst, einval)
params_copy (some dst) (some src) = (some src, pos 0)

-- The sizes that are reported whatever was asked for: the buffer and a period of `snd_pcm_get_params`
-- and of the getters, in frames, and a period's time in microseconds.
abbrev pub buffer_size : ℕ
buffer_size = shim_buffer_frames

abbrev pub period_size : ℕ
period_size = 1024

abbrev pub period_time : ℕ
period_time = 23219
