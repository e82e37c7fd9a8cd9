-- ===== src/Server/World/Limit.antt =====
-- How many clients there may be.
use audiod.Prelude.{
  ℕ, zero, suc, ◌<◌, ◌≡◌, refl, ap, ◌∙◌, inl, inr, ◌&&◌, List, [], ◌∷◌, ◌++◌, Bool-cases, length,
}
use audiod.Prelude.Float.{Floats}
use audiod.Common.Audio.{AudioCfg}
use audiod.Server.State.{initial}
use audiod.Server.Mixer.{register, flush_one, is_dry}
use audiod.Server.World.{
  Config, Answers, Client, World, start, kept, on_tick, new_client, joins, ticks, Reach, starts,
  later,
}
use audiod.Server.World.Reached.{Reach-IsFine, rejoined, on_tick-IsFine}

module _ (fl : Floats) (cf : Config) (rounds : ℕ) (cfg : AudioCfg) (stream : List ℕ) where
  abbrev newcomer : Client fl
  newcomer = new_client fl cf (initial fl) rounds cfg stream

  -- That many connections before the mixer's first tick.
  abbrev crowd : ℕ → List (Client fl)
  crowd zero = []
  crowd (suc n) = crowd n ++ newcomer ∷ []

  crowded : ℕ → World fl
  crowded n = record (start fl) { joining = crowd n }

  crowded-Reach : 0 < cf.max_clients → (n : ℕ) → Reach fl cf (crowded n)
  unfolding crowded initial
  crowded-Reach h zero = starts
  crowded-Reach h (suc n) = later (crowded-Reach h n) (joins rounds cfg stream h)

  length-kept :
      (xs : List (Client fl)) → length (kept fl (xs ++ newcomer ∷ [])) ≡ suc (length (kept fl xs))
  unfolding new_client register
  length-kept [] = refl
  length-kept (x ∷ xs) =
      let s = flush_one x.stream in
      elim (Bool-cases (s.done && is_dry s)) [
        | inl z ↦ rw z (length-kept xs)
        | inr z ↦ rw z (ap suc (length-kept xs))
      ]

  length-crowd : (n : ℕ) → length (kept fl (crowd n)) ≡ n
  length-crowd zero = refl
  length-crowd (suc n) = length-kept (crowd n) ∙ ap suc (length-crowd n)

  -- If the limit of clients is above 0, then for every n, also one above the limit, the threads
  -- can reach a state in which the mixer has n clients and counts n.
  pub limit_lem :
      (n : ℕ) (a : Answers)
      → 0 < cf.max_clients
      → (w : World fl) × Reach fl cf w × (length w.clients ≡ n) × (w.state.live_clients ≡ n)
  unfolding crowded
  limit_lem n a h =
      let w = crowded n in
      let r = crowded-Reach h n in
      let v = Reach-IsFine fl cf r in
      let e = (rejoined fl w a v).1 ∙ length-crowd n in
      (on_tick fl w a, later r (ticks a), e, (on_tick-IsFine fl w a v).counted ∙ e)
