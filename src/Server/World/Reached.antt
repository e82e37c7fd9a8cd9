-- ===== src/Server/World/Reached.antt =====
-- The invariant of the server's threads, over every interleaving of their steps.
use audiod.Prelude.{
  suc, ◌≡◌, refl, sym, ap, ◌∙◌, Option, some, List, [], ◌∷◌, ◌++◌, map, arith, length,
}
use mathlib.Core.Path.{subst}
use audiod.Prelude.Float.{Floats}
use audiod.Prelude.Int.{ℤ}
use audiod.Server.State.{ServerState, Route, store_output_path, initial}
use audiod.Server.Command.{Cmd, apply, mute, unmute, flush, status, volume}
use audiod.Server.Reader.{Event, pushed, counted, flushed, finished, applied}
use audiod.Server.Mixer.{MixerStream, Tick, flush_one, retain, prelude}
use audiod.Server.Mixer.Report.{publish}
use audiod.Server.Mixer.Sum.{AllWhole, AllRest}
use audiod.Server.Mixer.Output.{tick_left}
use audiod.Server.World.{
  Config, Answers, Client, World, streams_of, mixer_of, act, kept, env_of, tick_of, on_tick, Step,
  joins, acts, acts_early, commands, ticks, Reach, starts, later,
}
use audiod.Server.World.Kept.{
  streams_of-append, kept_lem, kept-AllSound, rejoin-AllSound, length-streams_of,
}
use audiod.Server.World.Sound.{
  IsSound, AllSound, AllSound-append, AllSound-split, AllSound-AllWhole, new_client-IsSound,
  act-IsSound,
}

module _ (fl : Floats) where
  open fl use {F32}

  -- Every client is sound, and as many are counted as the mixer has.
  pub record IsFine (w : World fl) : Type 0 where
    pub clients : AllSound fl w.clients
    pub joining : AllSound fl w.joining
    pub counted : w.state.live_clients ≡ length w.clients

  -- The streams that a tick of the mixer goes on with.
  pub prelude_streams :
      (w : World fl) (a : Answers)
      → (prelude (env_of fl w a) (mixer_of fl w)).0.streams
        ≡ streams_of fl (kept fl (w.clients ++ w.joining))
  unfolding prelude
  prelude_streams w a =
      ap (λ l. retain (map flush_one l)) (sym (streams_of-append fl w.clients w.joining))
      ∙ kept_lem fl (w.clients ++ w.joining)

  publish_live :
      (t : Tick) (route : Option Route) (delay : Option ℤ) (s : ServerState)
      → (publish t route delay s).live_clients ≡ t.mixer.live
  unfolding publish store_output_path
  publish_live t route delay s = ground arith

  pub joined-AllWhole :
      (w : World fl) → IsFine w → AllWhole (streams_of fl w.clients ++ streams_of fl w.joining)
  joined-AllWhole w v = subst AllWhole (streams_of-append fl w.clients w.joining) (
      AllSound-AllWhole fl (w.clients ++ w.joining)
        (AllSound-append fl w.clients w.joining v.clients v.joining))

  -- The clients behind a tick are those that were kept, each with what is left of its stream.
  pub rejoined :
      (w : World fl) (a : Answers)
      → IsFine w
      → let t = tick_of fl w a in
        let cs = kept fl (w.clients ++ w.joining) in
        AllSound fl (on_tick fl w a).clients
        × (length (on_tick fl w a).clients ≡ length cs)
        × (t.mixer.live ≡ length cs)
  unfolding on_tick
  rejoined w a v =
      let t = tick_of fl w a in
      let cs = kept fl (w.clients ++ w.joining) in
      let sound =
        kept-AllSound fl (w.clients ++ w.joining)
          (AllSound-append fl w.clients w.joining v.clients v.joining) in
      let (k, r, live) = tick_left fl _ (env_of fl w a) (mixer_of fl w) (joined-AllWhole w v) in
      let p = prelude_streams w a in
      let j =
        rejoin-AllSound fl k cs t.mixer.streams sound
          (subst (λ l. AllRest k l t.mixer.streams) p r) in
      (j.0, j.1, live ∙ (ap (λ (l : List MixerStream). length l) p ∙ length-streams_of fl cs))

  pub on_tick-IsFine : (w : World fl) (a : Answers) → IsFine w → IsFine (on_tick fl w a)
  unfolding on_tick
  on_tick-IsFine w a v =
      let j = rejoined w a v in
      record {
        clients = j.0;
        joining = tt;
        counted = publish_live (tick_of fl w a) a.route a.delay_after w.state ∙ (j.2 ∙ sym j.1);
      }

  apply_live : (s : ServerState) (cmd : Cmd F32) → (apply fl s cmd).0.live_clients ≡ s.live_clients
  unfolding apply
  apply_live s mute = refl
  apply_live s unmute = refl
  apply_live s flush = refl
  apply_live s status = refl
  apply_live s (volume g) = refl

  act_live :
      (e : Event F32) (c c' : Client fl) (s s' : ServerState)
      → act fl e c s ≡ some (c', s')
      → s'.live_clients ≡ s.live_clients
  unfolding act
  act_live (pushed bytes) c c' s s' h = ground arith
  act_live (counted n) c c' s s' h = ground arith
  act_live flushed c c' s s' h = ground arith
  act_live finished c c' s s' h = ground arith
  act_live (applied cmd) c c' s s' h = ground (arith, apply_live s cmd)

  replace-AllSound :
      (before after : List (Client fl)) (c c' : Client fl)
      → AllSound fl (before ++ c ∷ after)
      → (IsSound fl c → IsSound fl c')
      → AllSound fl (before ++ c' ∷ after)
  replace-AllSound before after c c' v f =
      let (b, a) = AllSound-split fl before (c ∷ after) v in
      AllSound-append fl before (c' ∷ after) b (f a.0, a.1)

  length-replace :
      (before after : List (Client fl)) (c c' : Client fl)
      → length (before ++ c ∷ after) ≡ length (before ++ c' ∷ after)
  length-replace [] after c c' = refl
  length-replace (x ∷ before) after c c' = ap suc (length-replace before after c c')

  pub Step-IsFine : (cf : Config) {w w' : World fl} → Step fl cf w w' → IsFine w → IsFine w'
  Step-IsFine cf {w} (joins rounds cfg stream h) v = record {
    clients = v.clients;
    joining =
        AllSound-append fl w.joining _ v.joining
          (new_client-IsSound fl cf w.state rounds cfg stream h, tt);
    counted = v.counted;
  }
  Step-IsFine cf {w} (acts before after c c' e todo s m q h) v = record {
    clients =
        replace-AllSound before after c (record c' { todo = todo })
          (subst (AllSound fl) m v.clients) (λ u. act-IsSound fl e c c' todo w.state s u q h);
    joining = v.joining;
    counted =
        act_live e c c' w.state s h
        ∙ (v.counted
            ∙ (ap (λ (l : List (Client fl)). length l) m ∙ length-replace before after c _));
  }
  Step-IsFine cf {w} (acts_early before after c c' e todo s m q h) v = record {
    clients = v.clients;
    joining =
        replace-AllSound before after c (record c' { todo = todo })
          (subst (AllSound fl) m v.joining) (λ u. act-IsSound fl e c c' todo w.state s u q h);
    counted = act_live e c c' w.state s h ∙ v.counted;
  }
  Step-IsFine cf {w} (commands cmd) v = record {
    clients = v.clients;
    joining = v.joining;
    counted = apply_live w.state cmd ∙ v.counted;
  }
  Step-IsFine cf {w} (ticks a) v = on_tick-IsFine w a v

  -- In every state that the server's threads can reach, in any order of their steps, the ring of
  -- each client, registered or still in the mixer's channel, is valid, not interrupted and holds
  -- whole stereo frames, which are the last bytes that its reader has put in; what its reader has
  -- yet to put in is of whole frames; and the status counts as many clients as the mixer has.
  pub Reach-IsFine : (cf : Config) {w : World fl} → Reach fl cf w → IsFine w
  unfolding initial
  Reach-IsFine cf starts = record { clients = tt; joining = tt; counted = refl }
  Reach-IsFine cf (later r st) = Step-IsFine cf st (Reach-IsFine cf r)
