-- ===== src/Tests/World.antt =====
-- A server with one client, which has sent one stereo frame.
use audiod.Prelude.{
  ℕ, ◌*◌, ◌≡◌, refl, true, false, none, some, List, [], ◌∷◌, ◌++◌, arith, length, tabulate,
}
use audiod.Prelude.Bytes.{u32_le, read_exact}
use audiod.Prelude.Int.{pos, ◌-ℤ◌}
use audiod.Common.Audio.{AudioCfg}
use audiod.Common.Ring
use audiod.Common.Ring.{push, copy_in}
use audiod.Server.State.{initial, state_gain}
use audiod.Server.Dsp.Resampler
use audiod.Server.Reader.{
  pushed, counted, finished, reader_client, reader_loop, read_frame, on_chunk,
}
use audiod.Server.Mixer.{register, writable, out_bytes}
use audiod.Server.Mixer.Sum.{heard_at, AllRest}
use audiod.Server.World.{
  Config, Answers, Client, World, start, streams_of, kept, act, tick_of, on_tick, new_client, joins,
  acts_early, Reach, starts, later,
}
use audiod.Server.World.Reached.{IsFine, Reach-IsFine}
use audiod.Server.World.Heard.{on_tick_lem}
use audiod.Server.World.Limit.{limit_lem}
use audiod.Tests.Toy.{toy_floats}

abbrev config : Config
config = record { max_clients = 1; client_ring_bytes = 64; mix_rate = 48000; is_linear = true }

abbrev stereo : AudioCfg
stereo = record { rate = 48000; channels = 2; frame_size = 4; format = 2 }

abbrev frame : List ℕ
frame = 1 ∷ 0 ∷ 2 ∷ 0 ∷ []

abbrev joined : World toy_floats
joined = record (start toy_floats) {
  joining = new_client toy_floats config (initial toy_floats) 2 stereo (u32_le 4 ++ frame) ∷ [];
}

joined-Reach : Reach toy_floats config joined
unfolding initial
joined-Reach = later starts (joins 2 stereo (u32_le 4 ++ frame) (omega arith))

abbrev writer : Client toy_floats
writer = new_client toy_floats config (initial toy_floats) 2 stereo (u32_le 4 ++ frame)

abbrev wrote : Client toy_floats
wrote = record {
  stream = record (register 64) { ring = copy_in (Ring.new 64) frame };
  todo = counted 1 ∷ finished ∷ [];
  sent = frame;
}

abbrev written : World toy_floats
written = record (start toy_floats) { joining = wrote ∷ [] }

written-Reach : Reach toy_floats config written
unfolding new_client act push initial register Ring.new Ring.next_power_of_two reader_client
    reader_loop read_frame read_exact on_chunk Resampler.new
written-Reach = later joined-Reach (
    acts_early [] [] writer (record wrote { todo = writer.todo }) (pushed frame)
      (counted 1 ∷ finished ∷ []) (initial toy_floats) refl refl refl)

abbrev answers : Answers
answers = record {
  now = 7;
  stop_ok = true;
  delay = pos 4000;
  route = none;
  delay_after = some (pos 4096);
}

Reach-IsFine_example : IsFine toy_floats written
Reach-IsFine_example = Reach-IsFine toy_floats config written-Reach

on_tick_lem_example :
    let streams = streams_of toy_floats (kept toy_floats (wrote ∷ [])) in
    ((tick_of toy_floats written answers).written
      ≡ out_bytes toy_floats
          (state_gain toy_floats (initial toy_floats))
          false
          (tabulate (96 * 2) (heard_at 96 streams)))
    × AllRest 96 streams (streams_of toy_floats (on_tick toy_floats written answers).clients)
unfolding writable initial register copy_in Ring.new ◌-ℤ◌
on_tick_lem_example = on_tick_lem toy_floats config written answers written-Reach refl (omega arith)

limit_lem_example :
    (w : World toy_floats) × Reach toy_floats config w
    × (length w.clients ≡ 3)
    × (w.state.live_clients ≡ 3)
limit_lem_example = limit_lem toy_floats config 2 stereo [] 3 answers (omega arith)
