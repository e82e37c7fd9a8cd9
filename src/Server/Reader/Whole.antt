-- ===== src/Server/Reader/Whole.antt =====
-- The mixer takes whole stereo frames off a client's ring: the reader puts nothing else in.
use audiod.Prelude.{
  ℕ, zero, suc, ◌*◌, ◌%◌, ◌<◌, ◌≡◌, inl, inr, Option, none, some, List, [], ◌∷◌, ◌++◌, arith,
  Option-cases, length, take, drop, length-take,
}
use audiod.Prelude.Float.{Floats}
use audiod.Prelude.Bytes.{le_u32, read_exact}
use audiod.Common.Audio.{AudioCfg}
use audiod.Server.Dsp.{fold_to_stereo}
use audiod.Server.Dsp.Length.{length-f32_stereo_to_s16, length-fold_to_stereo, length-produce}
use audiod.Server.Dsp.Resampler.{Resampler, resample}
use audiod.Server.Command.{Cmd, mute, unmute, flush, status, volume}
use audiod.Server.Reader.{
  Event, pushed, counted, flushed, finished, applied, command, chunk, read_frame, on_command,
  to_mix_rate, on_chunk, reader_loop,
}

module _ (fl : Floats) where
  open fl use {F32}

  -- Every write is of whole frames, and is followed by its own count.
  abbrev pub Whole : List (Event F32) → Type 0
  Whole [] = Unit {0}
  Whole (pushed bytes ∷ []) = ⊥
  Whole (pushed bytes ∷ counted n ∷ events) = (length bytes ≡ n * 4) × (0 < n) × Whole events
  Whole (pushed bytes ∷ e ∷ events) = ⊥
  Whole (counted n ∷ events) = ⊥
  Whole (flushed ∷ events) = Whole events
  Whole (finished ∷ events) = Whole events
  Whole (applied c ∷ events) = Whole events

  length-to_mix_rate :
      (resampler : Option (Resampler F32)) (folded : List F32)
      → length folded % 2 ≡ 0
      → length (to_mix_rate fl resampler folded).0 % 2 ≡ 0
  unfolding to_mix_rate resample
  length-to_mix_rate none folded h = h
  length-to_mix_rate (some r) folded h = length-produce fl _ _ r.at

  -- The events of one chunk, before any others.
  on_chunk-Whole :
      (cfg : AudioCfg) (mix_rate : ℕ) (resampler : Option (Resampler F32)) (bytes : List ℕ)
      (events : List (Event F32))
      → 0 < length bytes
      → Whole events
      → Whole ((on_chunk fl cfg mix_rate resampler bytes).0 ++ events)
  unfolding on_chunk
  on_chunk-Whole cfg mix_rate resampler bytes events p w =
      let folded = fold_to_stereo fl bytes cfg.format cfg.channels in
      let out = (to_mix_rate fl resampler folded).0 in
      ground (
        arith,
        length-to_mix_rate resampler folded
            (length-fold_to_stereo fl bytes cfg.format cfg.channels),
        length-f32_stereo_to_s16 fl out,
      )

  -- A length of 0 announces a command, so a chunk is never empty.
  chunk_pos :
      (stream bytes rest : List ℕ)
      → read_frame fl stream ≡ some (chunk bytes, rest)
      → 0 < length bytes
  unfolding read_frame read_exact
  chunk_pos stream bytes rest e =
      let len = le_u32 (take 4 stream) 0 in ground (arith, length-take len (drop 4 stream))

  on_command-Whole :
      (c : Cmd F32) (events : List (Event F32)) → Whole events → Whole (on_command fl c ∷ events)
  unfolding on_command
  on_command-Whole mute events w = w
  on_command-Whole unmute events w = w
  on_command-Whole flush events w = w
  on_command-Whole status events w = w
  on_command-Whole (volume g) events w = w

  -- Whatever the client sends, and whenever the reader is stopped, each write into the ring is of
  -- one or more whole stereo frames and is followed by the count of just these frames.
  pub reader_loop-Whole :
      (fuel : ℕ) (cfg : AudioCfg) (mix_rate : ℕ) (resampler : Option (Resampler F32))
      (stream : List ℕ)
      → Whole (reader_loop fl fuel cfg mix_rate resampler stream)
  unfolding reader_loop
  reader_loop-Whole zero cfg mix_rate resampler stream = tt
  reader_loop-Whole (suc fuel) cfg mix_rate resampler stream =
      elim (Option-cases (read_frame fl stream)) [
        | inl e ↦ rw (e, reader_loop) tt
        | inr ((command c, rest), e) ↦
            rw (e, reader_loop)
              (on_command-Whole c (reader_loop fl fuel cfg mix_rate resampler rest)
                (reader_loop-Whole fuel cfg mix_rate resampler rest))
        | inr ((chunk bytes, rest), e) ↦
            let resampler' = (on_chunk fl cfg mix_rate resampler bytes).1 in
            rw (e, reader_loop)
              (on_chunk-Whole cfg mix_rate resampler bytes
                (reader_loop fl fuel cfg mix_rate resampler' rest) (chunk_pos stream bytes rest e)
                (reader_loop-Whole fuel cfg mix_rate resampler' rest))
      ]
