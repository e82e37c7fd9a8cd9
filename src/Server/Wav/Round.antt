-- ===== src/Server/Wav/Round.antt =====
-- What is written as a WAV file of 16-bit samples is read back.
use audiod.Prelude.{ℕ, ◌+◌, ◌*◌, ◌^◌, ◌<◌, ◌≡◌, refl, ap₂, some, List, [], ◌∷◌, ◌++◌, arith, length}
use audiod.Prelude.Bytes.{u16_le, u32_le, le_u16, le_u32, read_exact-append}
use audiod.Common.Audio.{audio_cfg}
use audiod.Server.Wav.{loaded, riff, wave, wav_header, load_wav}

-- The header of the usual layout, for samples of `size` bytes.
abbrev pub header_of : ℕ → ℕ → ℕ → List ℕ
header_of rate ch size =
    riff
    ++ u32_le (size + 36)
    ++ wave
    ++ (b'f' ∷ b'm' ∷ b't' ∷ b' ' ∷ [])
    ++ u32_le 16
    ++ u16_le 1
    ++ u16_le ch
    ++ u32_le rate
    ++ u32_le (rate * ch * 2)
    ++ u16_le (ch * 2)
    ++ u16_le 16
    ++ (b'd' ∷ b'a' ∷ b't' ∷ b'a' ∷ [])
    ++ u32_le size

header_lem :
    (rate ch size : ℕ)
    → rate < 2 ^ 32
    → ch < 2 ^ 16
    → size < 2 ^ 32
    → (wav_header (header_of rate ch size)).1 ≡ some (audio_cfg rate ch 2, size)
unfolding wav_header
header_lem rate ch size a b c =
    let h = header_of rate ch size in
    let r : le_u32 h 24 ≡ rate = omega arith in
    let n : le_u16 h 22 ≡ ch = omega arith in
    let d : le_u32 h 40 ≡ size = omega arith in
    ap₂ (λ (p : ℕ × ℕ) (s : ℕ). some (audio_cfg p.0 p.1 2, s)) (ap₂ (λ (x y : ℕ). (x, y)) r n) d

-- A WAV file of the usual layout, of 16-bit samples, with a rate and a size of the samples below
-- 2^32 and fewer than 2^16 channels, is read back to its rate, its channels and its samples,
-- whatever follows them.
pub load_wav-header_of :
    (rate ch : ℕ) (samples rest : List ℕ)
    → rate < 2 ^ 32
    → ch < 2 ^ 16
    → length samples < 2 ^ 32
    → load_wav (header_of rate ch (length samples) ++ samples ++ rest)
      ≡ loaded (audio_cfg rate ch 2) samples
unfolding load_wav
load_wav-header_of rate ch samples rest a b c =
    let h = header_of rate ch (length samples) in
    rw
      (
        read_exact-append 44 h (samples ++ rest) refl,
        header_lem rate ch (length samples) a b c,
        read_exact-append (length samples) samples rest refl,
        load_wav,
      )
      refl
