-- ===== src/Server/Dsp.antt =====
-- server/src/dsp.rs: client bytes to stereo samples at the mix rate, and those to bytes. The
-- children have the streaming resampler.
pub mod Kernel
pub mod Resampler
pub mod Stream
pub mod Memory
pub mod Length
use audiod.Prelude.{
  ℕ, zero, suc, ◌+◌, ◌*◌, ◌/◌, ◌%◌, ◌^◌, min, List, [], ◌∷◌, ◌++◌, ◌==◌, if◌then◌else◌, length,
  tabulate,
}
use audiod.Prelude.Bytes.{le_u16, le_u32, u16_le}
use audiod.Prelude.Int.{pos, i16_of, i16_bits}
use audiod.Prelude.Float.{Floats}
use audiod.Common.Audio.{format_float_le, pcm_format_bytes}

module _ (fl : Floats) where
  open fl use {F32, from_bits, lit, add, mul, div, of_int, to_i16, clamp, neg}

  -- Channel `c` of the frame that stands at byte `i`.
  unfoldable pub channel_at : List ℕ → ℕ → ℕ → ℕ → F32
  channel_at src fmt i c =
      if fmt == format_float_le
      then from_bits (le_u32 src (i + c * 4))
      else div (of_int (i16_of (le_u16 src (i + c * 2)))) (lit 32768 0)

  -- The channels from `c` on, added up by parity: the two sums and how many went into each.
  unfoldable pub sum_sides : List F32 → ℕ → F32 → F32 → ℕ → ℕ → F32 × F32
  sum_sides [] c l r nl nr = (div l (of_int (pos nl)), div r (of_int (pos nr)))
  sum_sides (v ∷ vs) c l r nl nr =
      let left = sum_sides vs (c + 1) (add l v) r (nl + 1) nr in
      let right = sum_sides vs (c + 1) l (add r v) nl (nr + 1) in if c % 2 == 0 then left else right

  -- Mono goes to both sides, stereo as it is, more channels are averaged by parity.
  unfoldable pub fold_frame : List ℕ → ℕ → ℕ → ℕ → F32 × F32
  unfolding channel_at sum_sides
  fold_frame src fmt ch i =
      let chan = channel_at src fmt i in
      if ch == 1
      then (chan 0, chan 0)
      else if ch == 2
      then (chan 0, chan 1)
      else sum_sides (tabulate (min ch 8) chan) 0 (lit 0 0) (lit 0 0) 0 0

  -- `frames` frames of `fsz` bytes from byte `i` on.
  unfoldable pub fold_frames : List ℕ → ℕ → ℕ → ℕ → ℕ → ℕ → List F32
  unfolding fold_frame
  fold_frames src fmt ch fsz zero i = []
  fold_frames src fmt ch fsz (suc frames) i =
      let (l, r) = fold_frame src fmt ch i in l ∷ r ∷ fold_frames src fmt ch fsz frames (i + fsz)

  unfoldable pub fold_to_stereo : List ℕ → ℕ → ℕ → List F32
  unfolding fold_frames
  fold_to_stereo src fmt ch =
      let fsz = pcm_format_bytes (fmt % 2 ^ 16) * ch in
      fold_frames src fmt ch fsz (length src / fsz) 0

  -- `(v.clamp(-1.0, 1.0) * 32767.0) as i16`
  unfoldable pub sample_s16 : F32 → ℕ
  sample_s16 v = i16_bits (to_i16 (mul (clamp (neg (lit 1 0)) (lit 1 0) v) (lit 32767 0)))

  unfoldable pub f32_stereo_to_s16 : List F32 → List ℕ
  unfolding sample_s16
  f32_stereo_to_s16 [] = []
  f32_stereo_to_s16 (v ∷ inp) = u16_le (sample_s16 v) ++ f32_stereo_to_s16 inp
