-- ===== src/Server/World/Sound.antt =====
-- What holds of the server's threads in every state that they can reach.
use audiod.Prelude.{
  ℕ, ◌%◌, ◌<◌, ◌≡◌, refl, sym, ap, ◌∙◌, inl, inr, false, Option, none, some, List, [], ◌∷◌, ◌++◌,
  arith, leb, Option-cases, length,
}
use mathlib.Core.Path.{subst}
use mathlib.Core.List.{append_assoc}
use audiod.Prelude.Float.{Floats}
use audiod.Common.Audio.{AudioCfg}
use audiod.Common.Ring
use audiod.Common.Ring.{Ring, clear, push}
use audiod.Common.Ring.Inv.{new-IsValid}
use audiod.Common.Ring.Queue.{contents}
use audiod.Common.Ring.Writing.{push-Pushed}
use audiod.Server.State.{ServerState}
use audiod.Server.Dsp.Resampler
use audiod.Server.Reader.{
  Event, pushed, counted, flushed, finished, applied, reader_client, reader_loop,
}
use audiod.Server.Reader.Whole.{Whole, reader_loop-Whole}
use audiod.Server.Mixer.{register, request_flush, finish}
use audiod.Server.Mixer.Sum.{IsWhole, AllWhole}
use audiod.Server.World.{Config, Client, streams_of, act, new_client}

module _ (fl : Floats) where
  open fl use {F32}

  -- Every write that is still to come is of whole frames.
  abbrev pub AllFrames : List (Event F32) → Type 0
  AllFrames [] = Unit {0}
  AllFrames (pushed bytes ∷ events) = (length bytes % 4 ≡ 0) × AllFrames events
  AllFrames (counted n ∷ events) = AllFrames events
  AllFrames (flushed ∷ events) = AllFrames events
  AllFrames (finished ∷ events) = AllFrames events
  AllFrames (applied c ∷ events) = AllFrames events

  Whole-AllFrames : (events : List (Event F32)) → Whole fl events → AllFrames events
  Whole-AllFrames [] w = tt
  Whole-AllFrames (pushed bytes ∷ []) w = absurd w
  Whole-AllFrames (pushed bytes ∷ counted n ∷ events) w =
      (omega (arith, w.0), Whole-AllFrames events w.2)
  Whole-AllFrames (pushed bytes ∷ pushed bs ∷ events) w = absurd w
  Whole-AllFrames (pushed bytes ∷ flushed ∷ events) w = absurd w
  Whole-AllFrames (pushed bytes ∷ finished ∷ events) w = absurd w
  Whole-AllFrames (pushed bytes ∷ applied c ∷ events) w = absurd w
  Whole-AllFrames (counted n ∷ events) w = absurd w
  Whole-AllFrames (flushed ∷ events) w = Whole-AllFrames events w
  Whole-AllFrames (finished ∷ events) w = Whole-AllFrames events w
  Whole-AllFrames (applied c ∷ events) w = Whole-AllFrames events w

  -- A client's ring holds whole frames: the last of what its reader has put into it.
  pub record IsSound (c : Client fl) : Type 0 where
    pub whole : IsWhole c.stream
    pub frames : AllFrames c.todo
    pub lost : List ℕ
    pub ending : c.sent ≡ lost ++ contents c.stream.ring

  abbrev pub AllSound : List (Client fl) → Type 0
  AllSound [] = Unit {0}
  AllSound (c ∷ clients) = IsSound c × AllSound clients

  pub AllSound-append : (xs ys : List (Client fl)) → AllSound xs → AllSound ys → AllSound (xs ++ ys)
  AllSound-append [] ys v w = w
  AllSound-append (x ∷ xs) ys v w = (v.0, AllSound-append xs ys v.1 w)

  pub AllSound-split : (xs ys : List (Client fl)) → AllSound (xs ++ ys) → AllSound xs × AllSound ys
  AllSound-split [] ys v = (tt, v)
  AllSound-split (x ∷ xs) ys v = let r = AllSound-split xs ys v.1 in ((v.0, r.0), r.1)

  pub AllSound-AllWhole : (xs : List (Client fl)) → AllSound xs → AllWhole (streams_of fl xs)
  AllSound-AllWhole [] v = tt
  AllSound-AllWhole (x ∷ xs) v = (v.0.whole, AllSound-AllWhole xs v.1)

  pub new_client-IsSound :
      (cf : Config) (s : ServerState) (rounds : ℕ) (cfg : AudioCfg) (stream : List ℕ)
      → s.live_clients < cf.max_clients
      → IsSound (new_client fl cf s rounds cfg stream)
  unfolding new_client reader_client register Ring.new
  new_client-IsSound cf s rounds cfg stream h =
      let resampler = Resampler.new fl cfg.rate cf.mix_rate cf.is_linear in
      let z : leb cf.max_clients s.live_clients ≡ false = ground arith in
      record {
        whole = record { valid = new-IsValid cf.client_ring_bytes; calm = refl; frames = refl };
        frames =
            rw (z, reader_client)
              (Whole-AllFrames (reader_loop fl rounds cfg cf.mix_rate resampler stream)
                (reader_loop-Whole fl rounds cfg cf.mix_rate resampler stream));
        lost = [];
        ending = refl;
      }

  moved :
      (c c' : Client fl) (todo : List (Event F32))
      → c ≡ c'
      → IsSound (record c { todo = todo })
      → IsSound (record c' { todo = todo })
  moved c c' todo same v = subst (λ (d : Client fl). IsSound (record d { todo = todo })) same v

  -- What a reader does keeps its client sound.
  pub act-IsSound :
      (e : Event F32) (c c' : Client fl) (todo : List (Event F32)) (s s' : ServerState)
      → IsSound c
      → c.todo ≡ e ∷ todo
      → act fl e c s ≡ some (c', s')
      → IsSound (record c' { todo = todo })
  unfolding act request_flush finish
  act-IsSound (pushed bytes) c c' todo s s' v q e =
      let f : AllFrames (pushed bytes ∷ todo) = subst AllFrames q v.frames in
      elim (Option-cases (push c.stream.ring bytes)) [
        | inl n ↦
            let e' : ◌≡◌ {A = Option (Client fl × ServerState)} none (some (c', s')) =
              rw (n, act) at e in
            cc
        | inr (ring, n) ↦
            let p = push-Pushed c.stream.ring ring bytes v.whole.valid n in
            let next : Client fl = record c {
              stream = record c.stream { ring = ring };
              sent = c.sent ++ bytes;
            } in
            let e' : ◌≡◌ {A = Option (Client fl × ServerState)} (some (next, s)) (some (c', s')) =
              rw (n, act) at e in
            let same : next ≡ c' = cc in
            moved next c' todo same (record {
              whole = record {
                valid = p.valid;
                calm = p.same_flag ∙ v.whole.calm;
                frames = omega (arith, p.grown, v.whole.frames, f.0);
              };
              frames = f.1;
              lost = v.lost;
              ending =
                  ap (λ (l : List ℕ). l ++ bytes) v.ending
                  ∙ (append_assoc v.lost (contents c.stream.ring) bytes
                      ∙ ap (λ (l : List ℕ). v.lost ++ l) (sym p.holds));
            })
      ]
  act-IsSound (counted n) c c' todo s s' v q e =
      let f : AllFrames todo = subst AllFrames q v.frames in
      moved c c' todo (cc)
        (record { whole = v.whole; frames = f; lost = v.lost; ending = v.ending })
  act-IsSound flushed c c' todo s s' v q e =
      let f : AllFrames todo = subst AllFrames q v.frames in
      moved (record c { stream = request_flush c.stream }) c' todo (cc)
        (record { whole = ground arith; frames = f; lost = v.lost; ending = v.ending })
  act-IsSound finished c c' todo s s' v q e =
      let f : AllFrames todo = subst AllFrames q v.frames in
      moved (record c { stream = finish c.stream }) c' todo (cc)
        (record { whole = ground arith; frames = f; lost = v.lost; ending = v.ending })
  act-IsSound (applied cmd) c c' todo s s' v q e =
      let f : AllFrames todo = subst AllFrames q v.frames in
      moved c c' todo (cc)
        (record { whole = v.whole; frames = f; lost = v.lost; ending = v.ending })
