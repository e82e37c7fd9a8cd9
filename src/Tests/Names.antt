-- ===== src/Tests/Names.antt =====
-- A name that an application looks up behind the fake handle.
use audiod.Prelude.{ℕ, ◌≡◌, refl, ◌≢◌, ◌↔◌, ◌⊎◌, true, some, ◌++◌}
use audiod.Prelude.Text.{Text, text}
use mathlib.Core.List.{Memᴰ}
use audiod.Shim.Symbols.{null, fake, function, found, version, symbols, dlsym}
use audiod.Shim.Symbols.Exact.{dlsym_lem}

abbrev versioned_open : Text
versioned_open = text "snd_pcm_open@ALSA_0.9"

dlsym_lem_example :
    let answer = dlsym (λ s. true) (λ h s. null) fake (some versioned_open) in
    ((answer ≡ function (text "snd_pcm_open")) ↔ (
      Memᴰ (text "snd_pcm_open") symbols
      × ((versioned_open ≡ text "snd_pcm_open")
          ⊎ (versioned_open ≡ text "snd_pcm_open" ++ version))))
    × ((n : ℕ) → answer ≢ found n)
dlsym_lem_example = dlsym_lem (λ s. true) (λ h s. null) versioned_open (text "snd_pcm_open") refl
