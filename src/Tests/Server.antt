-- ===== src/Tests/Server.antt =====
-- The reader and the resampler at small inputs.
use audiod.Prelude.{ℕ, ◌*◌, ◌≡◌, refl, none, List, [], ◌∷◌, ◌++◌, arith, length, replicate, concat}
use audiod.Common.Audio.{AudioCfg, audio_cfg}
use audiod.Server.Dsp.Resampler.{Resampler, linear, resample}
use audiod.Server.Dsp.Stream.{IsValid}
use audiod.Server.Dsp.Memory.{feed, hist-feed, resample_split}
use audiod.Server.Reader.{reader_loop}
use audiod.Server.Reader.Frames.{pcm_frames, ring_bytes, frames_counted, reader_direct}
use audiod.Server.State.{initial}
use audiod.Server.Command.{control_loop, apply}
use audiod.Ctl.{volume, message}
use audiod.Ctl.Heard.{command_of, with_reply, control_loop-message}
use audiod.Server.Wav.{loaded, load_wav}
use audiod.Server.Wav.Round.{header_of, load_wav-header_of}
use audiod.Tests.Toy.{toy_floats}

-- From 3 to 2 frames, without the table.
abbrev three_two : Resampler ℕ
three_two = record { kind = linear; step_num = 3; step_den = 2; at = 0; hist = []; off = 0 }

three_two-IsValid : IsValid ℕ three_two
three_two-IsValid = record { num_pos = omega arith; den_pos = omega arith; kept = omega arith }

abbrev chunk_a : List ℕ
chunk_a = replicate 102 5

abbrev chunk_b : List ℕ
chunk_b = replicate 4 7

resample_split_example :
    let (out, r') = resample toy_floats three_two chunk_a in
    let (out', r'') = resample toy_floats r' chunk_b in
    resample toy_floats three_two (chunk_a ++ chunk_b) ≡ (out ++ out', r'')
resample_split_example = resample_split toy_floats three_two chunk_a chunk_b three_two-IsValid

hist-feed_example :
    (feed toy_floats three_two (chunk_a ∷ chunk_b ∷ [])).hist
    ≡ three_two.hist ++ concat (chunk_a ∷ chunk_b ∷ [])
hist-feed_example = hist-feed toy_floats (chunk_a ∷ chunk_b ∷ []) three_two three_two-IsValid

abbrev two_chunks : List (List ℕ)
two_chunks = (1 ∷ 2 ∷ 3 ∷ 4 ∷ []) ∷ (5 ∷ 6 ∷ 7 ∷ 8 ∷ 9 ∷ 10 ∷ 11 ∷ 12 ∷ []) ∷ []

abbrev stereo : AudioCfg
stereo = audio_cfg 48000 2 2

reader_direct_example :
    let events = reader_loop toy_floats 5 stereo 48000 none (pcm_frames two_chunks) in
    (ring_bytes toy_floats events ≡ concat two_chunks)
    × (frames_counted toy_floats events * 4 ≡ length (concat two_chunks))
unfolding audio_cfg
reader_direct_example =
    reader_direct toy_floats two_chunks 5 stereo 48000 none refl
      ((omega arith, omega arith, refl), ((omega arith, omega arith, refl), tt)) (omega arith)

control_loop-message_example :
    control_loop toy_floats 3 (initial toy_floats) (message toy_floats (volume 140) ++ []) ≡ (
      let (s', reply) =
        apply toy_floats (initial toy_floats) (command_of toy_floats (volume 140)) in
      with_reply toy_floats reply (control_loop toy_floats 2 s' []))
control_loop-message_example =
    control_loop-message toy_floats (volume 140) 2 (initial toy_floats) [] (λ x. refl)
      (λ x. omega arith)

abbrev four_samples : List ℕ
four_samples = 1 ∷ 0 ∷ 2 ∷ 0 ∷ 3 ∷ 0 ∷ 4 ∷ 0 ∷ []

load_wav-header_of_example :
    load_wav (header_of 44100 2 (length four_samples) ++ four_samples ++ (9 ∷ []))
    ≡ loaded (audio_cfg 44100 2 2) four_samples
load_wav-header_of_example =
    load_wav-header_of 44100 2 four_samples (9 ∷ []) (omega arith) (omega arith) (omega arith)
