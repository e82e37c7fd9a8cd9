-- ===== src/Tests/Player.antt =====
-- The players at small inputs.
use audiod.Prelude.{
  ℕ, ◌*◌, ◌/◌, ◌≡◌, refl, true, false, some, List, [], ◌∷◌, ◌++◌, arith, length, take, replicate,
}
use audiod.Server.State.{Route, initial}
use audiod.Server.Wav.Round.{header_of}
use audiod.Server.Player.{Event, Player, Turn, stdin_loop, play_wav, play_stdin}
use audiod.Server.Player.Whole.{fed_bytes, EndsDrained, play_wav_lem}
use audiod.Server.Player.Input.{whole_reads, stdin_loop_lem}
use audiod.Server.Player.Silence.{AllSilent, play_stdin-AllSilent}
use audiod.Tests.Toy.{toy_floats}

abbrev loud : Turn ℕ
loud = record { muted_sync = false; muted_now = true; amp_ok = true; gain = 1 }

-- Two frames and half of a third.
abbrev samples : List ℕ
samples = 1 ∷ 2 ∷ 3 ∷ 4 ∷ 5 ∷ 6 ∷ 7 ∷ 8 ∷ 9 ∷ 10 ∷ []

-- A file with half a frame at its end.
play_wav_lem_example :
    let file = header_of 44100 2 (length samples) ++ samples ++ [] in
    (events : List Event) × (play_wav toy_floats file Route.speakers true
        (initial toy_floats)
        (loud ∷ loud ∷ [])
      ≡ some events)
    × (fed_bytes events ≡ take (length samples / 4 * 4) samples)
    × EndsDrained events
play_wav_lem_example =
    play_wav_lem toy_floats 44100 samples [] Route.speakers (initial toy_floats) loud loud []
      (omega arith) (omega arith) refl

abbrev stereo_player : Player
stereo_player = record {
  hw_fs = 4;
  client_fs = 4;
  client_channels = 2;
  client_format = 2;
  hw_mute = true;
  muted_applied = false;
  out_buf = [];
}

abbrev reads : List (Turn ℕ × List ℕ)
reads = (loud, samples) ∷ (loud, samples) ∷ []

stdin_loop_lem_example :
    (fed_bytes (stdin_loop toy_floats stereo_player (reads ++ (loud, []) ∷ []))
      ≡ whole_reads toy_floats reads)
    × EndsDrained (stdin_loop toy_floats stereo_player (reads ++ (loud, []) ∷ []))
stdin_loop_lem_example =
    stdin_loop_lem toy_floats stereo_player reads loud []
      (record { format = refl; channels = refl; frame_size = refl; in_hardware = refl })
      (refl, omega arith, (refl, omega arith, tt))

play_stdin-AllSilent_example : AllSilent (
    play_stdin toy_floats 48000 6 Route.speakers true
      (initial toy_floats)
      ((loud, replicate 24 7) ∷ []))
play_stdin-AllSilent_example =
    play_stdin-AllSilent toy_floats 48000 6 Route.speakers true (initial toy_floats)
      ((loud, replicate 24 7) ∷ []) (omega arith)
