-- ===== src/Tests/Mixer.antt =====
-- A mixer with one client, which has two stereo frames queued.
use audiod.Prelude.{◌-◌, ◌*◌, ◌<◌, min, ◌≡◌, refl, ◌⊎◌, true, false, none, [], ◌∷◌, length}
use audiod.Prelude.Int.{pos}
use audiod.Common.Ring.{new, copy_in}
use audiod.Server.Mixer.{MixerStream, Mixer, Env, register, tick, writable}
use audiod.Server.Mixer.Pace.{tick_writes, tick_stopped}
use audiod.Tests.Toy.{toy_floats}

abbrev client : MixerStream
client = record (register 64) { ring = copy_in (new 64) (1 ∷ 0 ∷ 2 ∷ 0 ∷ 3 ∷ 0 ∷ 4 ∷ 0 ∷ []) }

abbrev halted : Mixer
halted = record { streams = client ∷ []; dry_since = none; stopped = true; live = 1 }

abbrev calm : Env
calm = record { now = 7; added = []; stop_ok = true; delay = pos 4000; muted = false }

tick_writes_example :
    let bytes = (tick toy_floats 1 calm halted).written in
    (bytes ≡ []) ⊎ ((length bytes ≡ min 1024 (4096 - 4000) * 4) × (4000 < 4096))
tick_writes_example = tick_writes toy_floats 1 calm halted 4000 refl

tick_stopped_example :
    let t = tick toy_floats 1 calm halted in
    (t.halts ≡ 0)
    × ((t.mixer.stopped ≡ true) ⊎ (t.mixer.stopped ≡ false) × (0 < writable calm.delay))
tick_stopped_example = tick_stopped toy_floats 1 calm halted refl
