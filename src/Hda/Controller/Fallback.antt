-- ===== src/Hda/Controller/Fallback.antt =====
-- The switch from the rings to immediate commands.
use audiod.Prelude.{
  ℕ, ◌+◌, ◌<◌, ◌≡◌, refl, ◌↔◌, inl, inr, Bool, false, none, some, arith, leb, Bool-cases,
}
use audiod.Hda.Device.{Device}
use audiod.Hda.Corb.{
  CorbRing, Polls, Result, ok, err, Error, timed_out, would_block, other, unsupported,
}
use audiod.Hda.Controller.{Controller, CmdEngine, corb, pio, settle, degrade_to_pio, verb_raw}

abbrev pub Armed : CmdEngine → Bool → ℕ → Type 0
Armed (corb ring) done timeouts = (done ≡ false) × (timeouts < 3)
Armed pio done timeouts = timeouts ≡ 0

-- A controller with rings has never done back and has seen less than three timeouts in a row.
abbrev pub IsValid : Controller → Type 0
IsValid c = Armed c.engine c.pio_fallback_done c.corb_timeouts

abbrev pub OnPio : CmdEngine → Type 0
OnPio (corb ring) = ⊥
OnPio pio = Unit {0}

settle-IsValid :
    (c : Controller) (ring : CorbRing) (outcome : Result ℕ)
    → c.pio_fallback_done ≡ false
    → c.corb_timeouts < 3
    → IsValid (settle (record c { engine = corb ring }) outcome).0
unfolding settle degrade_to_pio
settle-IsValid c ring (ok r) p q = (p, omega arith)
settle-IsValid c ring (err timed_out) p q = elim (Bool-cases (leb 3 (c.corb_timeouts + 1))) [
  | inl e ↦ rw (p, e) refl
  | inr e ↦ rw (p, e) (refl, ground arith)
]
settle-IsValid c ring (err would_block) p q = rw p refl
settle-IsValid c ring (err unsupported) p q = rw p refl
settle-IsValid c ring (err other) p q = rw p refl

-- On a controller that has not fallen back and counts less than three timeouts, a failure makes
-- the rings be given up exactly if it is no timeout or the third one in a row.
settle_retries :
    (c : Controller) (e : Error)
    → c.pio_fallback_done ≡ false
    → c.corb_timeouts < 3
    → ((settle c (err e)).1 ≡ none) ↔ ((e ≡ timed_out) → c.corb_timeouts ≡ 2)
unfolding settle degrade_to_pio
settle_retries c timed_out p q = ground arith
settle_retries c would_block p q = ground arith
settle_retries c unsupported p q = ground arith
settle_retries c other p q = ground arith

-- When a verb returns, with an answer or an error, a valid controller is valid again (with rings
-- it has never fallen back and counts less than three timeouts in a row, without them it counts
-- none), and one that uses immediate commands still does.
pub verb_raw-IsValid :
    (bus : Device) (c c' : Controller) (cad nid verb payload : ℕ) (polls : Polls) (spins : ℕ)
    (d d' : bus.D) (a : Result ℕ)
    → verb_raw bus c cad nid verb payload polls spins d ≡ some (c', a, d')
    → IsValid c
    → IsValid c' × (OnPio c.engine → OnPio c'.engine)
unfolding verb_raw
verb_raw-IsValid bus c c' cad nid verb payload polls spins d d' a e v =
    ground (arith, settle-IsValid c)
