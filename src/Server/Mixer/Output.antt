-- ===== src/Server/Mixer/Output.antt =====
-- What a tick writes: the sum of what its clients have queued.
use audiod.Prelude.{
  ℕ, zero, suc, ◌*◌, ◌<◌, ◌≡◌, refl, sym, ap, ◌∙◌, inl, inr, false, List, [], ◌∷◌, ◌++◌, map, arith,
  ◌==◌, Bool-cases, length, get_or, replicate, tabulate, length-replicate, tabulate_ext,
  tabulate_self,
}
use audiod.Prelude.Int.{pos, bits32, i32_of, wrap32, zero_+ℤ}
use audiod.Prelude.Float.{Floats}
use audiod.Common.Ring.{clear}
use audiod.Server.Mixer.{
  MixerStream, Mixer, Env, prelude, writable, mix_streams, out_bytes, feed, tick, all_dry, retain,
  flush_one, try_idle_stop,
}
use audiod.Server.Mixer.Pace.{length-mix_streams}
use audiod.Server.Mixer.Sum.{
  IsWhole, AllWhole, Rest, total_at, heard_at, AllRest, mix_streams_at, mix_streams_left,
  mix_streams_data,
}

pub flush_one-IsWhole : (s : MixerStream) → IsWhole s → IsWhole (flush_one s)
unfolding clear
flush_one-IsWhole s v = ground arith

flush-AllWhole : (streams : List MixerStream) → AllWhole streams → AllWhole (map flush_one streams)
flush-AllWhole [] v = tt
flush-AllWhole (s ∷ streams) v = (flush_one-IsWhole s v.0, flush-AllWhole streams v.1)

retain-AllWhole : (streams : List MixerStream) → AllWhole streams → AllWhole (retain streams)
unfolding retain
retain-AllWhole [] v = tt
retain-AllWhole (s ∷ streams) v = ground (arith, retain-AllWhole streams v.1)

pub prelude-AllWhole :
    (env : Env) (m : Mixer) → AllWhole (m.streams ++ env.added) → AllWhole (prelude env m).0.streams
unfolding prelude
prelude-AllWhole env m v =
    retain-AllWhole (map flush_one (m.streams ++ env.added))
      (flush-AllWhole (m.streams ++ env.added) v)

pub AllRest-AllWhole :
    (n : ℕ) (streams left : List MixerStream) → AllRest n streams left → AllWhole left
AllRest-AllWhole n [] [] h = tt
AllRest-AllWhole n [] (s' ∷ left) h = absurd h
AllRest-AllWhole n (s ∷ streams) [] h = absurd h
AllRest-AllWhole n (s ∷ streams) (s' ∷ left) h = (h.0.whole, AllRest-AllWhole n streams left h.1)

Rest-none : (s : MixerStream) → IsWhole s → Rest 0 s s
Rest-none s v = record {
  bytes = refl;
  left = omega arith;
  whole = v;
  same_done = refl;
  same_flush = refl;
}

AllRest-none : (streams : List MixerStream) → AllWhole streams → AllRest 0 streams streams
AllRest-none [] v = tt
AllRest-none (s ∷ streams) v = (Rest-none s v.0, AllRest-none streams v.1)

try_idle_stop_streams :
    (env : Env) (m : Mixer) (n : ℕ) → (try_idle_stop env m n).mixer.streams ≡ m.streams
unfolding try_idle_stop
try_idle_stop_streams env m n = ground arith

get_or-replicate : (n i : ℕ) → get_or (replicate n (pos 0)) i (pos 0) ≡ pos 0
get_or-replicate zero i = refl
get_or-replicate (suc n) zero = refl
get_or-replicate (suc n) (suc i) = get_or-replicate n i

wrap32_zero : pos 0 ≡ wrap32 (pos 0)
unfolding wrap32 bits32 i32_of
wrap32_zero = refl

-- The sums of a tick, as a table.
mixed :
    (n : ℕ) (streams : List MixerStream)
    → AllWhole streams
    → (mix_streams n streams (replicate (n * 2) (pos 0))).0 ≡ tabulate (n * 2) (heard_at n streams)
mixed n streams v =
    let silence = replicate (n * 2) (pos 0) in
    let acc = (mix_streams n streams silence).0 in
    let l = length-replicate (n * 2) (pos 0) in
    let e : length acc ≡ n * 2 = length-mix_streams n streams silence ∙ l in
    sym (tabulate_self acc (pos 0))
    ∙ (ap (λ k. tabulate k (λ i. get_or acc i (pos 0))) e
        ∙ tabulate_ext (n * 2) (λ i. get_or acc i (pos 0)) (heard_at n streams)
            (λ i h.
              mix_streams_at n streams silence i (pos 0) v (omega (arith, l))
                (get_or-replicate (n * 2) i ∙ wrap32_zero)
              ∙ ap wrap32 (zero_+ℤ (total_at n streams i))))

module _ (fl : Floats) where
  open fl use {F32}

  -- If the rings of the streams hold whole frames and not all that a tick keeps are empty, and there
  -- is room, the tick writes the mixed samples and leaves each ring what stands behind them.
  pub tick_lem :
      (gain : F32) (env : Env) (m : Mixer)
      → AllWhole (m.streams ++ env.added)
      → let streams = (prelude env m).0.streams in
        let n = writable env.delay in
        let t = tick fl gain env m in
        all_dry streams ≡ false
        → 0 < n
        → (t.written ≡ out_bytes fl gain env.muted (tabulate (n * 2) (heard_at n streams)))
          × AllRest n streams t.mixer.streams
  unfolding tick feed
  tick_lem gain env m v d p =
      let streams = (prelude env m).0.streams in
      let n = writable env.delay in
      let w = prelude-AllWhole env m v in
      let silence = replicate (n * 2) (pos 0) in
      let z : (n == 0) ≡ false = ground arith in
      rw (d, z, mix_streams_data n streams silence w p d, feed, tick)
        (ap (out_bytes fl gain env.muted) (mixed n streams w), mix_streams_left n streams silence w)

  tick_live :
      (gain : F32) (env : Env) (m : Mixer)
      → (tick fl gain env m).mixer.live ≡ length (prelude env m).0.streams
  unfolding tick feed try_idle_stop prelude
  tick_live gain env m = ground arith

  -- In every tick, each client is left with what stands behind the same number of frames.
  pub tick_left :
      (gain : F32) (env : Env) (m : Mixer)
      → AllWhole (m.streams ++ env.added)
      → let streams = (prelude env m).0.streams in
        let t = tick fl gain env m in
        (k : ℕ) × AllRest k streams t.mixer.streams × (t.mixer.live ≡ length streams)
  unfolding tick feed
  tick_left gain env m v =
      let streams = (prelude env m).0.streams in
      let w = prelude-AllWhole env m v in
      let live = tick_live gain env m in
      elim (Bool-cases (all_dry streams)) [
        | inl d ↦ (
          0,
          rw (d, tick)
              (rw (try_idle_stop_streams env (prelude env m).0 (prelude env m).1)
                (AllRest-none streams w)),
          live,
        )
        | inr d ↦ elim (Bool-cases (writable env.delay == 0)) [
          | inl z ↦ (0, rw (d, z, feed, tick) (AllRest-none streams w), live)
          | inr z ↦ (writable env.delay, (tick_lem gain env m v d (ground arith)).1, live)
        ]
      ]
