-- ===== src/Hda/Controller/Verbs.antt =====
-- A verb makes no assertion of the driver fail while the rings fit into their page.
use audiod.Prelude.{ℕ, ◌≡◌, refl, ◌⊎◌, inl, inr, Option, none, some, arith, Option-cases}
use mathlib.Core.Path.{subst}
use audiod.Hda.Device.{Device}
use audiod.Hda.Io.{Ensures}
use audiod.Hda.Corb.{
  CorbRing, Polls, Result, ok, err, timed_out, would_block, unsupported, other, send,
}
use audiod.Hda.Corb.Sound
use audiod.Hda.Corb.Sound.{send-IsSound, wait_response-IsSound, RingReturns}
use audiod.Hda.Controller.{
  Controller, CmdEngine, corb, pio, corb_verb, verb_raw, settle, degrade_to_pio, make_verb,
}

-- The rings, if there are any, fit into their page.
abbrev pub EngineIsSound : CmdEngine → Type 0
EngineIsSound (corb ring) = Sound.IsSound ring
EngineIsSound pio = Unit {0}

-- A verb comes back, and the rings still fit.
abbrev pub Returns : {D : Type 0} → Option (Controller × Result ℕ × D) → Type 0
Returns none = ⊥
Returns (some (c, answer, d)) = EngineIsSound c.engine

engine-cases : (e : CmdEngine) → (e ≡ pio) ⊎ ((ring : CorbRing) × (e ≡ corb ring))
engine-cases pio = inl refl
engine-cases (corb ring) = inr (ring, refl)

settle-Sound :
    (c : Controller) (ring : CorbRing) (outcome : Result ℕ)
    → Sound.IsSound ring
    → EngineIsSound (settle (record c { engine = corb ring }) outcome).0.engine
unfolding settle degrade_to_pio
settle-Sound c ring (ok r) v = v
settle-Sound c ring (err timed_out) v = ground arith
settle-Sound c ring (err would_block) v = ground arith
settle-Sound c ring (err unsupported) v = ground arith
settle-Sound c ring (err other) v = ground arith

module _ (bus : Device) where
  open bus use {D}

  corb_verb-Sound :
      (ring : CorbRing) (cmdword cad : ℕ) (polls : Polls) (d : D)
      → Sound.IsSound ring
      → RingReturns (corb_verb bus ring cmdword cad polls d)
  unfolding corb_verb
  corb_verb-Sound ring cmdword cad polls d v =
      go (send bus ring cmdword d) refl (send-IsSound bus ring cmdword d v)
    where
      go :
          (r : Option (Result CorbRing × D))
          → send bus ring cmdword d ≡ r
          → Ensures Sound.IsSound r
          → RingReturns (corb_verb bus ring cmdword cad polls d)
      go none e h = absurd h
      go (some (err x, d')) e h = rw (e, corb_verb) v
      go (some (ok ring', d')) e h =
          rw (e, corb_verb) (wait_response-IsSound bus cad ring' polls d' h)

  pub verb_raw-Returns :
      (c : Controller) (cad nid verb payload : ℕ) (polls : Polls) (spins : ℕ) (d : D)
      → EngineIsSound c.engine
      → Returns (verb_raw bus c cad nid verb payload polls spins d)
  unfolding verb_raw
  verb_raw-Returns c cad nid verb payload polls spins d v = elim (engine-cases c.engine) [
    | inl e ↦ rw (e, verb_raw) v
    | inr (ring, e) ↦
        let outcome = corb_verb bus ring (make_verb cad nid verb payload) cad polls d in
        go ring e outcome refl (
          corb_verb-Sound ring (make_verb cad nid verb payload) cad polls d
            (subst EngineIsSound e v))
  ]
    where
      go :
          (ring : CorbRing)
          → c.engine ≡ corb ring
          → (r : Option (CorbRing × Result ℕ × D))
          → corb_verb bus ring (make_verb cad nid verb payload) cad polls d ≡ r
          → RingReturns r
          → Returns (verb_raw bus c cad nid verb payload polls spins d)
      go ring e none f h = absurd h
      go ring e (some (ring', outcome, d')) f h =
          let w = settle-Sound c ring' outcome h in
          elim (Option-cases (settle (record c { engine = corb ring' }) outcome).1) [
            | inl n ↦ rw (e, verb_raw) (rw (f, verb_raw) (rw (n, verb_raw) w))
            | inr (a, n) ↦ rw (e, verb_raw) (rw (f, verb_raw) (rw (n, verb_raw) w))
          ]
