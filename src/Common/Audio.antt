-- ===== src/Common/Audio.antt =====
-- common/src/lib.rs: the constants that the shim and the server share, sample sizes, `AudioCfg`.
use audiod.Prelude.{ℕ, ◌*◌, ◌%◌, ◌^◌, ◌==◌, if◌then◌else◌}

abbrev pub hdr_sz : ℕ
hdr_sz = 12

abbrev pub msg_mute : ℕ
msg_mute = b'M'

abbrev pub msg_unmute : ℕ
msg_unmute = b'U'

abbrev pub msg_status : ℕ
msg_status = b'S'

abbrev pub msg_volume : ℕ
msg_volume = b'V'

abbrev pub msg_flush : ℕ
msg_flush = b'F'

abbrev pub format_s16_le : ℕ
format_s16_le = 2

abbrev pub format_float_le : ℕ
format_float_le = 14

abbrev pub hw_format : ℕ
hw_format = format_s16_le

abbrev pub hw_channels : ℕ
hw_channels = 2

-- The frames of the virtual device, and those that the server keeps in the DMA ring.
abbrev pub shim_buffer_frames : ℕ
shim_buffer_frames = 8192

abbrev pub shim_server_frames : ℕ
shim_server_frames = 4096

abbrev pub drain_chunk : ℕ
drain_chunk = 1024

unfoldable pub format_bytes : ℕ → ℕ
format_bytes fmt = if fmt == format_s16_le then 2 else if fmt == format_float_le then 4 else 2

unfoldable pub pcm_format_bytes : ℕ → ℕ
pcm_format_bytes fmt = if fmt == 2 then 2 else if fmt == 6 then 4 else if fmt == 14 then 4 else 2

pub record AudioCfg : Type 0 where
  pub rate : ℕ
  pub channels : ℕ
  pub frame_size : ℕ
  pub format : ℕ

-- `(bps * channels) as u16` keeps the low 16 bits of a `u32` product.
unfoldable pub audio_cfg : ℕ → ℕ → ℕ → AudioCfg
unfolding format_bytes
audio_cfg rate channels format =
    let bps = format_bytes format in
    record {
      rate = rate;
      channels = channels;
      frame_size = bps * channels % 2 ^ 32 % 2 ^ 16;
      format = format;
    }
