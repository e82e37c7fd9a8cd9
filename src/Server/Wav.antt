-- ===== src/Server/Wav.antt =====
-- server/src/main.rs: `load_wav`, over the bytes of the file.
pub mod Round
use audiod.Prelude.{ℕ, not, ◌&&◌, Option, none, some, List, [], ◌∷◌, ◌==◌, if◌then◌else◌, slice}
use audiod.Prelude.Text.{same_bytes}
use audiod.Prelude.Bytes.{le_u16, le_u32, read_exact}
use audiod.Common.Audio.{AudioCfg, audio_cfg, format_s16_le}

pub data WavError : Type 0 where
  truncated not_wav not_pcm not_16_bit : WavError

pub data Loaded : Type 0 where
  failed : WavError → Loaded
  loaded : AudioCfg → List ℕ → Loaded

abbrev pub riff : List ℕ
riff = b'R' ∷ b'I' ∷ b'F' ∷ b'F' ∷ []

abbrev pub wave : List ℕ
wave = b'W' ∷ b'A' ∷ b'V' ∷ b'E' ∷ []

-- What the 44 bytes of the header say: an error, or the configuration and the size of the samples.
unfoldable pub wav_header : List ℕ → WavError × Option (AudioCfg × ℕ)
wav_header h =
    let fmt = le_u16 h 20 in
    let ch = le_u16 h 22 in
    let rate = le_u32 h 24 in
    let bits = le_u16 h 34 in
    let dsz = le_u32 h 40 in
    if not (same_bytes (slice h 0 4) riff && same_bytes (slice h 8 4) wave)
    then (not_wav, none)
    else if not (fmt == 1)
    then (not_pcm, none)
    else if not (bits == 16)
    then (not_16_bit, none)
    else (truncated, some (audio_cfg rate ch format_s16_le, dsz))

unfoldable pub load_wav : List ℕ → Loaded
load_wav file = elim (read_exact 44 file) [
  | none ↦ failed truncated
  | some (h, rest) ↦ elim (wav_header h).1 [
    | none ↦ failed (wav_header h).0
    | some (cfg, dsz) ↦ elim (read_exact dsz rest) [
      | none ↦ failed truncated
      | some (samples, rest') ↦ loaded cfg samples
    ]
  ]
]
