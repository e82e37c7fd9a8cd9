-- ===== src/Server/Mixer/Pace.antt =====
-- What the mixer writes, and when it stops the stream.
use audiod.Prelude.{
  ℕ, suc, ◌-◌, ◌*◌, ◌/◌, ◌<◌, min, ◌≡◌, refl, ap, ◌∙◌, ◌⊎◌, inl, inr, Bool, true, false, List, [],
  ◌∷◌, arith, ◌==◌, Bool-cases, length, replicate, length-replicate,
}
use audiod.Prelude.Int.{ℤ, pos, ◌-ℤ◌}
use audiod.Prelude.Float.{Floats}
use audiod.Common.Ring
use audiod.Server.Mixer.{
  MixerStream, Mixer, Env, try_idle_stop, prelude, writable, add_samples, mix_streams, out_bytes,
  feed, tick, all_dry,
}

pub length-add_samples :
    (acc : List ℤ) (bytes : List ℕ) → length (add_samples acc bytes) ≡ length acc
unfolding add_samples
length-add_samples [] bytes = refl
length-add_samples (v ∷ acc) [] = refl
length-add_samples (v ∷ acc) (lo ∷ []) = refl
length-add_samples (v ∷ acc) (lo ∷ hi ∷ bytes) = ap suc (length-add_samples acc bytes)

pub length-mix_streams :
    (n : ℕ) (streams : List MixerStream) (acc : List ℤ)
    → length (mix_streams n streams acc).0 ≡ length acc
unfolding mix_streams
length-mix_streams n [] acc = refl
length-mix_streams n (s ∷ streams) acc =
    let want = min (n * 4) (s.ring.filled / 4 * 4) in
    let more = add_samples acc (Ring.try_pop s.ring want).0 in
    elim (Bool-cases (want == 0)) [
      | inl e ↦ rw (e, mix_streams) (length-mix_streams n streams acc)
      | inr e ↦
          rw (e, mix_streams)
            (length-mix_streams n streams more
              ∙ length-add_samples acc (Ring.try_pop s.ring want).0)
    ]

pub try_idle_stop_written : (env : Env) (m : Mixer) (n : ℕ) → (try_idle_stop env m n).written ≡ []
unfolding try_idle_stop
try_idle_stop_written env m n = ground arith

module _ (fl : Floats) where
  open fl use {F32}

  length-out_bytes :
      (gain : F32) (muted : Bool) (acc : List ℤ)
      → length (out_bytes fl gain muted acc) ≡ length acc * 2
  unfolding out_bytes
  length-out_bytes gain muted [] = omega arith
  length-out_bytes gain muted (v ∷ acc) = omega (arith, length-out_bytes gain muted acc)

  feed_written :
      (gain : F32) (env : Env) (m : Mixer) (halts delay : ℕ)
      → env.delay ≡ pos delay
      → let bytes = (feed fl gain env m halts).written in
        (bytes ≡ []) ⊎ ((length bytes ≡ min 1024 (4096 - delay) * 4) × (delay < 4096))
  unfolding feed writable ◌-ℤ◌
  feed_written gain env m halts delay e =
      let n = writable env.delay in
      let acc = (mix_streams n m.streams (replicate (n * 2) (pos 0))).0 in
      ground (
        arith,
        length-out_bytes gain env.muted acc,
        length-mix_streams n m.streams (replicate (n * 2) (pos 0)),
        length-replicate (n * 2) (pos 0),
      )

  -- While the driver reports a delay that is not negative, a tick of the mixer writes nothing, or
  -- the delay is below 4096 and it writes as many stereo frames as are missing from 4096, but 1024
  -- at most.
  pub tick_writes :
      (gain : F32) (env : Env) (m : Mixer) (delay : ℕ)
      → env.delay ≡ pos delay
      → let bytes = (tick fl gain env m).written in
        (bytes ≡ []) ⊎ ((length bytes ≡ min 1024 (4096 - delay) * 4) × (delay < 4096))
  unfolding tick
  tick_writes gain env m delay e =
      let (m', halts) = prelude env m in
      elim (Bool-cases (all_dry (prelude env m).0.streams)) [
        | inl d ↦ rw (d, tick) (inl (try_idle_stop_written env m' halts))
        | inr d ↦ rw (d, tick) (feed_written gain env m' halts delay e)
      ]

  try_idle_stop_stopped :
      (env : Env) (m : Mixer) (n : ℕ)
      → m.stopped ≡ true
      → ((try_idle_stop env m n).halts ≡ n) × ((try_idle_stop env m n).mixer.stopped ≡ true)
  unfolding try_idle_stop
  try_idle_stop_stopped env m n h = ground arith

  prelude_stopped :
      (env : Env) (m : Mixer)
      → m.stopped ≡ true
      → ((prelude env m).1 ≡ 0) × ((prelude env m).0.stopped ≡ true)
  unfolding prelude
  prelude_stopped env m h = ground arith

  feed_stopped :
      (gain : F32) (env : Env) (m : Mixer) (n : ℕ)
      → m.stopped ≡ true
      → ((feed fl gain env m n).halts ≡ n)
        × (((feed fl gain env m n).mixer.stopped ≡ true)
            ⊎ ((feed fl gain env m n).mixer.stopped ≡ false) × (0 < writable env.delay))
  unfolding feed
  feed_stopped gain env m n h = ground arith

  -- While the stream is stopped, a tick does not stop it again, and leaves it stopped unless there
  -- was room to write.
  pub tick_stopped :
      (gain : F32) (env : Env) (m : Mixer)
      → m.stopped ≡ true
      → let t = tick fl gain env m in
        (t.halts ≡ 0)
        × ((t.mixer.stopped ≡ true) ⊎ (t.mixer.stopped ≡ false) × (0 < writable env.delay))
  unfolding tick
  tick_stopped gain env m h =
      let (m', halts) = prelude env m in
      let p = prelude_stopped env m h in
      elim (Bool-cases (all_dry (prelude env m).0.streams)) [
        | inl d ↦
            let t = try_idle_stop_stopped env m' halts p.1 in rw (d, tick) (t.0 ∙ p.0, inl t.1)
        | inr d ↦ let t = feed_stopped gain env m' halts p.1 in rw (d, tick) (t.0 ∙ p.0, t.1)
      ]
