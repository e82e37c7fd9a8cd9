-- ===== src/Server/World/Kept.antt =====
-- The clients that a tick of the mixer keeps, with what is left of their streams.
use audiod.Prelude.{
  ℕ, suc, ◌*◌, ◌≡◌, refl, sym, ap, ◌∙◌, inl, inr, ◌&&◌, List, [], ◌∷◌, ◌++◌, map, Bool-cases,
  length, take, take-append-drop,
}
use mathlib.Core.List.{append_assoc, append-nil}
use audiod.Prelude.Float.{Floats}
use audiod.Common.Ring.{clear}
use audiod.Common.Ring.Queue.{contents}
use audiod.Server.Mixer.{MixerStream, is_dry, flush_one, retain}
use audiod.Server.Mixer.Sum.{Rest, AllRest}
use audiod.Server.Mixer.Output.{flush_one-IsWhole}
use audiod.Server.World.{Client, streams_of, kept, rejoin}
use audiod.Server.World.Sound.{IsSound, AllSound}

module _ (fl : Floats) where
  pub streams_of-append :
      (xs ys : List (Client fl)) → streams_of fl (xs ++ ys) ≡ streams_of fl xs ++ streams_of fl ys
  streams_of-append [] ys = refl
  streams_of-append (x ∷ xs) ys = ap (◌∷◌ x.stream) (streams_of-append xs ys)

  pub kept_lem :
      (cs : List (Client fl))
      → retain (map flush_one (streams_of fl cs)) ≡ streams_of fl (kept fl cs)
  unfolding retain
  kept_lem [] = refl
  kept_lem (c ∷ cs) =
      let s = flush_one c.stream in
      elim (Bool-cases (s.done && is_dry s)) [
        | inl z ↦ rw z (kept_lem cs)
        | inr z ↦ rw z (ap (◌∷◌ s) (kept_lem cs))
      ]

  flush-IsSound :
      (c : Client fl) → IsSound fl c → IsSound fl (record c { stream = flush_one c.stream })
  unfolding clear
  flush-IsSound c v = elim (Bool-cases c.stream.flush) [
    | inl z ↦ record {
      whole = flush_one-IsWhole c.stream v.whole;
      frames = v.frames;
      lost = c.sent;
      ending = rw z (sym (append-nil c.sent));
    }
    | inr z ↦ record {
      whole = flush_one-IsWhole c.stream v.whole;
      frames = v.frames;
      lost = v.lost;
      ending = rw z v.ending;
    }
  ]

  pub kept-AllSound : (cs : List (Client fl)) → AllSound fl cs → AllSound fl (kept fl cs)
  kept-AllSound [] v = tt
  kept-AllSound (c ∷ cs) v =
      let s = flush_one c.stream in
      elim (Bool-cases (s.done && is_dry s)) [
        | inl z ↦ rw z (kept-AllSound cs v.1)
        | inr z ↦ rw z (flush-IsSound c v.0, kept-AllSound cs v.1)
      ]

  rejoin-IsSound :
      (k : ℕ) (c : Client fl) (s : MixerStream)
      → IsSound fl c
      → Rest k c.stream s
      → IsSound fl (record c { stream = s })
  rejoin-IsSound k c s v r =
      let held = contents c.stream.ring in
      record {
        whole = r.whole;
        frames = v.frames;
        lost = v.lost ++ take (k * 4) held;
        ending =
            v.ending
            ∙ (ap (λ (l : List ℕ). v.lost ++ l)
                  (sym (take-append-drop (k * 4) held)
                    ∙ ap (λ (l : List ℕ). take (k * 4) held ++ l) (sym r.bytes))
                ∙ sym (append_assoc v.lost (take (k * 4) held) (contents s.ring)));
      }

  pub rejoin-AllSound :
      (k : ℕ) (cs : List (Client fl)) (left : List MixerStream)
      → AllSound fl cs
      → AllRest k (streams_of fl cs) left
      → AllSound fl (rejoin fl cs left)
        × (length (rejoin fl cs left) ≡ length cs)
        × (streams_of fl (rejoin fl cs left) ≡ left)
  rejoin-AllSound k [] [] v r = (tt, refl, refl)
  rejoin-AllSound k [] (s ∷ left) v r = absurd r
  rejoin-AllSound k (c ∷ cs) [] v r = absurd r
  rejoin-AllSound k (c ∷ cs) (s ∷ left) v r =
      let rest = rejoin-AllSound k cs left v.1 r.1 in
      ((rejoin-IsSound k c s v.0 r.0, rest.0), ap suc rest.1, ap (◌∷◌ s) rest.2)

  pub length-streams_of : (cs : List (Client fl)) → length (streams_of fl cs) ≡ length cs
  length-streams_of [] = refl
  length-streams_of (c ∷ cs) = ap suc (length-streams_of cs)
