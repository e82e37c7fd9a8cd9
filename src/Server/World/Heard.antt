-- ===== src/Server/World/Heard.antt =====
-- What the threads together let be heard.
use audiod.Prelude.{◌*◌, ◌<◌, ◌≡◌, sym, false, List, ◌++◌, tabulate}
use mathlib.Core.Path.{subst}
use audiod.Prelude.Float.{Floats}
use audiod.Server.State.{state_gain}
use audiod.Server.Mixer.{MixerStream, writable, all_dry, out_bytes}
use audiod.Server.Mixer.Sum.{heard_at, AllRest}
use audiod.Server.Mixer.Output.{tick_lem}
use audiod.Server.World.{
  Config, Answers, World, streams_of, mixer_of, kept, env_of, tick_of, on_tick, Reach,
}
use audiod.Server.World.Sound.{AllSound-append}
use audiod.Server.World.Kept.{kept-AllSound, rejoin-AllSound}
use audiod.Server.World.Reached.{Reach-IsFine, prelude_streams, joined-AllWhole}

module _ (fl : Floats) where
  -- In every state that the server's threads can reach, if not all the rings that a tick of the
  -- mixer keeps are empty and there is room for n frames, n above 0, the tick writes for each of
  -- the n * 2 samples the sum of the clients' next queued samples, wrapped around to 32 bits as in
  -- a release build and put through volume, mute and the cut to 16 bits, where a client whose ring
  -- ends earlier adds silence; each client's ring is left with the bytes behind its next n frames.
  pub on_tick_lem :
      (cf : Config) (w : World fl) (a : Answers)
      → Reach fl cf w
      → let streams = streams_of fl (kept fl (w.clients ++ w.joining)) in
        let n = writable a.delay in
        all_dry streams ≡ false
        → 0 < n
        → ((tick_of fl w a).written
            ≡ out_bytes fl
                (state_gain fl w.state)
                w.state.muted
                (tabulate (n * 2) (heard_at n streams)))
          × AllRest n streams (streams_of fl (on_tick fl w a).clients)
  unfolding on_tick
  on_tick_lem cf w a r d p =
      let v = Reach-IsFine fl cf r in
      let n = writable a.delay in
      let t = tick_of fl w a in
      let e = prelude_streams fl w a in
      let cs = kept fl (w.clients ++ w.joining) in
      let whole = joined-AllWhole fl w v in
      let gain = state_gain fl w.state in
      let l =
        subst
          (λ (streams : List MixerStream).
            all_dry streams ≡ false
            → (t.written ≡ out_bytes fl gain w.state.muted (tabulate (n * 2) (heard_at n streams)))
              × AllRest n streams t.mixer.streams)
          e (λ d'. tick_lem fl gain (env_of fl w a) (mixer_of fl w) whole d' p) d in
      let sound =
        kept-AllSound fl (w.clients ++ w.joining)
          (AllSound-append fl w.clients w.joining v.clients v.joining) in
      let j = rejoin-AllSound fl n cs t.mixer.streams sound l.1 in
      (l.0, subst (AllRest n (streams_of fl cs)) (sym j.2) l.1)
