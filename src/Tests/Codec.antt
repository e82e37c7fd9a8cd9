-- ===== src/Tests/Codec.antt =====
-- A codec with the expected widgets, and one whose widgets are all converters.
use audiod.Prelude.{ℕ, ◌≡◌, refl, inl, inr, false, Option, some, [], ◌∷◌}
use mathlib.Core.Path.{subst}
use audiod.Hda.Codec.{
  Answers, Step, nid_mux_spk, check_widget, widget_type, contains, or_zero, init_playback,
}
use audiod.Hda.Codec.Guard.{AllHarmless, NeverPasses, init_playback_guarded}

abbrev converters : Answers
converters = λ sent v. some 0

abbrev mux_check : Step
mux_check = check_widget 0 nid_mux_spk (2 ∷ 3 ∷ [])

mux_check-NeverPasses : NeverPasses converters mux_check
mux_check-NeverPasses = λ sent caps e.
    subst (λ (o : Option ℕ). contains (2 ∷ 3 ∷ []) (widget_type (or_zero o)) ≡ false) e refl

init_playback_guarded_example :
    ((init_playback converters 0 0x11 1).1 ≡ false)
    × AllHarmless (init_playback converters 0 0x11 1).0
init_playback_guarded_example =
    init_playback_guarded converters 0 0x11 1 mux_check (inr (inr (inl refl))) mux_check-NeverPasses
