-- ===== src/Server/Reader/Frames.antt =====
-- What the reader makes of a stream of well-formed frames.
use audiod.Prelude.{
  ℕ, zero, suc, ◌+◌, ◌*◌, ◌/◌, ◌%◌, ◌^◌, ◌<◌, ◌≡◌, refl, ap, true, Option, some, List, [], ◌∷◌,
  ◌++◌, arith, length, length-append, concat,
}
use audiod.Prelude.Bytes.{u32_le, le_u32, read_exact, read_exact-append}
use audiod.Prelude.Float.{Floats}
use audiod.Common.Audio.{AudioCfg}
use audiod.Server.Dsp.Resampler.{Resampler}
use audiod.Server.Reader.{
  is_direct, on_chunk, reader_loop, Event, pushed, counted, flushed, finished, applied, chunk,
  read_frame, is_direct, on_chunk, reader_loop,
}

-- The protocol's PCM frame: a length and as many bytes.
abbrev pub pcm_frame : List ℕ → List ℕ
pcm_frame bytes = u32_le (length bytes) ++ bytes

-- The frames of some chunks, one behind the other.
abbrev pub pcm_frames : List (List ℕ) → List ℕ
pcm_frames [] = []
pcm_frames (bytes ∷ chunks) = pcm_frame bytes ++ pcm_frames chunks

-- A chunk that fits the length prefix, is not taken for a command, and holds whole stereo frames.
abbrev pub IsStereoChunk : List ℕ → Type 0
IsStereoChunk bytes = (0 < length bytes) × (length bytes < 2 ^ 32) × (length bytes % 4 ≡ 0)

abbrev pub AllStereo : List (List ℕ) → Type 0
AllStereo [] = Unit {0}
AllStereo (bytes ∷ chunks) = IsStereoChunk bytes × AllStereo chunks

pub le_u32-u32_le : (n : ℕ) → n < 2 ^ 32 → le_u32 (u32_le n) 0 ≡ n
le_u32-u32_le n h = omega arith

module _ (fl : Floats) where
  open fl use {F32}

  -- The bytes that a trace puts into the ring, and the frames that it adds to the total.
  abbrev pub ring_bytes : List (Event F32) → List ℕ
  ring_bytes [] = []
  ring_bytes (pushed bytes ∷ events) = bytes ++ ring_bytes events
  ring_bytes (counted n ∷ events) = ring_bytes events
  ring_bytes (flushed ∷ events) = ring_bytes events
  ring_bytes (finished ∷ events) = ring_bytes events
  ring_bytes (applied c ∷ events) = ring_bytes events

  abbrev pub frames_counted : List (Event F32) → ℕ
  frames_counted [] = 0
  frames_counted (pushed bytes ∷ events) = frames_counted events
  frames_counted (counted n ∷ events) = n + frames_counted events
  frames_counted (flushed ∷ events) = frames_counted events
  frames_counted (finished ∷ events) = frames_counted events
  frames_counted (applied c ∷ events) = frames_counted events

  pub read_frame-pcm :
      (bytes rest : List ℕ)
      → 0 < length bytes
      → length bytes < 2 ^ 32
      → read_frame fl (pcm_frame bytes ++ rest) ≡ some (chunk bytes, rest)
  unfolding read_frame
  read_frame-pcm bytes rest p q = ground (
    arith,
    read_exact-append 4 (u32_le (length bytes)) (bytes ++ rest) refl,
    read_exact-append (length bytes) bytes rest refl,
    le_u32-u32_le (length bytes),
  )

  pub on_chunk_direct :
      (cfg : AudioCfg) (mix_rate : ℕ) (resampler : Option (Resampler F32)) (bytes : List ℕ)
      → is_direct fl cfg mix_rate ≡ true
      → length bytes % 4 ≡ 0
      → on_chunk fl cfg mix_rate resampler bytes
        ≡ (pushed bytes ∷ counted (length bytes / 4) ∷ [], resampler)
  unfolding on_chunk
  on_chunk_direct cfg mix_rate resampler bytes d h = rw (d, h)

  -- A stream of chunks of whole stereo frames, none of them empty or of 2^32 bytes or more, in the
  -- mixer's own format makes the reader, if it runs for more rounds than there are chunks, write
  -- the chunks' bytes into the ring in order, and count their frames.
  pub reader_direct :
      (chunks : List (List ℕ)) (fuel : ℕ) (cfg : AudioCfg) (mix_rate : ℕ)
      (resampler : Option (Resampler F32))
      → is_direct fl cfg mix_rate ≡ true
      → AllStereo chunks
      → length chunks < fuel
      → let events = reader_loop fl fuel cfg mix_rate resampler (pcm_frames chunks) in
        (ring_bytes events ≡ concat chunks) × (frames_counted events * 4 ≡ length (concat chunks))
  unfolding reader_loop read_exact
  reader_direct chunks zero cfg mix_rate resampler d a f = absurd (omega arith)
  reader_direct [] (suc fuel) cfg mix_rate resampler d a f = (refl, refl)
  reader_direct (bytes ∷ chunks) (suc fuel) cfg mix_rate resampler d a f =
      let ih = reader_direct chunks fuel cfg mix_rate resampler d a.1 (omega arith) in
      rw
        (
          read_frame-pcm bytes (pcm_frames chunks) a.0.0 a.0.1,
          on_chunk_direct cfg mix_rate resampler bytes d a.0.2,
          reader_loop,
        )
        (ap (◌++◌ bytes) ih.0, omega (arith, length-append bytes (concat chunks), ih.1))
