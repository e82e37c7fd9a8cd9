-- ===== src/Tests/Shim.antt =====
-- A handle that an application has configured and written to.
use audiod.Prelude.{
  ℕ, ◌+◌, ◌*◌, ◌≡◌, refl, inl, inr, true, none, some, List, [], ◌∷◌, ◌++◌, arith, length, take,
  drop, replicate,
}
use audiod.Common.Audio.{AudioCfg, audio_cfg, drain_chunk, pcm_format_bytes}
use audiod.Common.Ring.{new, push, copy_in, next_power_of_two}
use audiod.Common.Ring.Queue.{contents}
use audiod.Server.Command.{parse_header}
use audiod.Server.Reader.{reader_loop}
use audiod.Server.Reader.Frames.{ring_bytes}
use audiod.Shim.{Pcm, header_bytes, frame_bytes, running}
use audiod.Shim.Model.{consumed_frames, pcm_delay_avail}
use audiod.Prelude.Int.{pos}
use audiod.Shim.Status.{state_code, delay_of, avail_update, status, get_avail, get_delay, get_state}
use audiod.Shim.Status.Round.{status_lem}
use audiod.Shim.Calls.{pcm_state, opened, writei}
use audiod.Shim.Drain.{Env, drain_loop}
use audiod.Shim.Delay.{delay-writei}
use audiod.Shim.Wire.{Flowing, parse_header-header_bytes, shim_command_ignored}
use audiod.Shim.Stream.{drain-reader}
use audiod.Tests.Toy.{toy_floats}

abbrev playing : Pcm
playing = record (opened 64) {
  rate = 48000;
  channels = 2;
  configured = true;
  state = running;
  play_start = some 0;
}

abbrev eight_bytes : List ℕ
eight_bytes = 1 ∷ 2 ∷ 3 ∷ 4 ∷ 5 ∷ 6 ∷ 7 ∷ 8 ∷ []

delay-writei_example :
    let h' = (writei playing 0 (some eight_bytes) 2).0 in
    ((pcm_delay_avail toy_floats h' 0).0 ≡ (pcm_delay_avail toy_floats playing 0).0 + 2)
    × ((pcm_delay_avail toy_floats h' 0).1 + 2 ≡ (pcm_delay_avail toy_floats playing 0).1)
unfolding opened writei push copy_in new pcm_delay_avail consumed_frames pcm_format_bytes
    next_power_of_two
delay-writei_example =
    delay-writei toy_floats playing 0 0 2 eight_bytes refl (omega arith) (ground arith)
      (ground arith) refl

parse_header-header_bytes_example :
    parse_header (header_bytes 44100 2 14) ≡ some (audio_cfg 44100 2 14)
parse_header-header_bytes_example =
    parse_header-header_bytes 44100 2 14 (omega arith) (omega arith) (omega arith) (omega arith)
      (inr refl)

abbrev stereo : AudioCfg
stereo = audio_cfg 48000 2 2

shim_command_ignored_example :
    reader_loop toy_floats 4 stereo 48000 none (frame_bytes (70 ∷ []) ++ [])
    ≡ reader_loop toy_floats 3 stereo 48000 none []
unfolding audio_cfg
shim_command_ignored_example = shim_command_ignored toy_floats 70 3 48000 stereo none [] refl

-- The surroundings of a round in which nothing fails.
abbrev calm : Env
calm = record {
  cmd_sent = true;
  flush_sent = true;
  chunk_sent = true;
  attempts = [];
  header_sent = true;
}

abbrev fed : Pcm
fed = record playing { ring = copy_in (new 64) eight_bytes; sent = header_bytes 48000 2 2 }

fed-Flowing : Flowing fed
unfolding opened copy_in new next_power_of_two
fed-Flowing = record {
  live = refl;
  wanted = refl;
  unmuted = refl;
  unflushed = refl;
  open_ring = refl;
  ring_valid = record { sized = refl; reader = omega arith; writer = refl; fits = omega arith };
}

drain-reader_example :
    let sent = (drain_loop (calm ∷ calm ∷ []) fed).sent in
    (parse_header (take 12 sent) ≡ some stereo)
    × (ring_bytes toy_floats (reader_loop toy_floats 4 stereo 48000 none (drop 12 sent))
        ≡ take (length (calm ∷ calm ∷ []) * drain_chunk) (contents fed.ring))
unfolding audio_cfg opened copy_in new next_power_of_two
drain-reader_example =
    drain-reader toy_floats (calm ∷ calm ∷ []) fed 4 48000 48000 2 2 stereo none (refl, (refl, tt))
      fed-Flowing refl
      (parse_header-header_bytes 48000 2 2 (omega arith) (omega arith) (omega arith) (omega arith)
        (inl refl))
      refl refl (omega arith)

status_lem_example :
    let (filled, result) = status toy_floats (some playing) 7 (some (replicate 128 9)) in
    (result ≡ pos 0)
    × (get_state filled ≡ pos (state_code (pcm_state (some playing))))
    × ((d : ℕ) × (delay_of toy_floats (some playing) 7 ≡ (some d, pos 0))
        × (get_delay filled ≡ pos d))
    × (get_avail filled ≡ pos (avail_update toy_floats (some playing) 7))
status_lem_example = status_lem toy_floats playing 7 (replicate 128 9)
