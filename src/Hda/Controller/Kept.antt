-- ===== src/Hda/Controller/Kept.antt =====
-- What a verb leaves as it is in the controller.
use audiod.Prelude.{ℕ, ◌≡◌, refl, some, arith}
use audiod.Hda.Device.{Device}
use audiod.Hda.Corb.{CorbRing, Polls, Result, ok, err, timed_out, would_block, unsupported, other}
use audiod.Hda.Controller.{Controller, corb, verb_raw, settle, degrade_to_pio, sd0_tag, sd_index}

-- The same codec address and the same capabilities.
abbrev pub IsSame : Controller → Controller → Type 0
IsSame c c' = (c'.cad ≡ c.cad) × (c'.gcap ≡ c.gcap)

settle-IsSame :
    (c : Controller) (ring : CorbRing) (outcome : Result ℕ)
    → IsSame c (settle (record c { engine = corb ring }) outcome).0
unfolding settle degrade_to_pio
settle-IsSame c ring (ok r) = (refl, refl)
settle-IsSame c ring (err timed_out) = ground arith
settle-IsSame c ring (err would_block) = ground arith
settle-IsSame c ring (err unsupported) = ground arith
settle-IsSame c ring (err other) = ground arith

pub verb_raw-IsSame :
    (bus : Device) (c c' : Controller) (cad nid verb payload : ℕ) (polls : Polls) (spins : ℕ)
    (d d' : bus.D) (a : Result ℕ)
    → verb_raw bus c cad nid verb payload polls spins d ≡ some (c', a, d')
    → IsSame c c'
unfolding verb_raw
verb_raw-IsSame bus c c' cad nid verb payload polls spins d d' a e = ground (arith, settle-IsSame c)

pub sd0_tag-IsSame : (c c' : Controller) → IsSame c c' → sd0_tag c' ≡ sd0_tag c
unfolding sd0_tag sd_index
sd0_tag-IsSame c c' h = rw h.1 refl
