-- ===== src/Hda/Codec/Guard.antt =====
-- What is sent to a codec that is not the expected one.
use audiod.Prelude.{
  ℕ, ◌≡◌, refl, sym, ◌∙◌, ◌⊎◌, inl, inr, true, false, some, List, [], ◌∷◌, ◌++◌, map, arith,
  Bool-cases, Option-cases,
}
use mathlib.Core.Path.{subst}
use mathlib.Core.List.{append_assoc, append-nil}
use audiod.Hda.Codec.{
  Verb, Answers, Step, sets, checks, verb_of, nid_afg, verb_param, widget_type, contains, run_steps,
  widget_checks, playback_steps, wake_step, init_playback,
}

verbs_sent :
    (ans : Answers) (steps : List Step) (sent : List Verb)
    → (run_steps ans steps sent).1 ≡ true
    → (run_steps ans steps sent).0 ≡ sent ++ map verb_of steps
unfolding run_steps
verbs_sent ans [] sent e = sym (append-nil sent)
verbs_sent ans (sets v ∷ steps) sent e = elim (Option-cases (ans sent v)) [
  | inl a ↦ absurd (ground arith)
  | inr (r, a) ↦
      rw (a, run_steps)
        (verbs_sent ans steps (sent ++ v ∷ []) (rw (a, run_steps) at e)
          ∙ append_assoc sent (v ∷ []) (map verb_of steps))
]
verbs_sent ans (checks v expected ∷ steps) sent e = elim (Option-cases (ans sent v)) [
  | inl a ↦ absurd (ground arith)
  | inr (caps, a) ↦ elim (Bool-cases (contains expected (widget_type caps))) [
    | inl t ↦
        rw (a, t, run_steps)
          (verbs_sent ans steps (sent ++ v ∷ []) (rw (a, t, run_steps) at e)
            ∙ append_assoc sent (v ∷ []) (map verb_of steps))
    | inr t ↦ absurd (ground arith)
  ]
]

-- When the set-up of the codec succeeds, the codec has been sent exactly the verbs of its steps,
-- in order.
init_playback_sent :
    (ans : Answers) (cad fmt stream_tag : ℕ)
    → (init_playback ans cad fmt stream_tag).1 ≡ true
    → (init_playback ans cad fmt stream_tag).0
      ≡ map verb_of (wake_step cad ∷ widget_checks cad ++ playback_steps cad fmt stream_tag)
unfolding init_playback
init_playback_sent ans cad fmt stream_tag e =
    verbs_sent ans (wake_step cad ∷ widget_checks cad ++ playback_steps cad fmt stream_tag) [] e

-- A read of a parameter, or the waking of the function group.
abbrev pub Harmless : Verb → Type 0
Harmless v = (v.verb ≡ verb_param) ⊎ (v.nid ≡ nid_afg)

abbrev pub AllHarmless : List Verb → Type 0
AllHarmless [] = Unit {0}
AllHarmless (v ∷ vs) = Harmless v × AllHarmless vs

abbrev HarmlessSteps : List Step → Type 0
HarmlessSteps [] = Unit {0}
HarmlessSteps (s ∷ steps) = Harmless (verb_of s) × HarmlessSteps steps

-- A check that no answer ever satisfies.
abbrev pub NeverPasses : Answers → Step → Type 0
NeverPasses ans (sets v) = ⊥
NeverPasses ans (checks v expected) =
    (sent : List Verb) (caps : ℕ)
    → ans sent v ≡ some caps
    → contains expected (widget_type caps) ≡ false

abbrev pub OneOf : Step → List Step → Type 0
OneOf s [] = ⊥
OneOf s (s' ∷ steps) = (s ≡ s') ⊎ OneOf s steps

AllHarmless-snoc :
    (vs : List Verb) (v : Verb) → AllHarmless vs → Harmless v → AllHarmless (vs ++ v ∷ [])
AllHarmless-snoc [] v p q = (q, tt)
AllHarmless-snoc (w ∷ vs) v p q = (p.0, AllHarmless-snoc vs v p.1 q)

guarded :
    (ans : Answers) (bad : Step) (steps rest : List Step) (sent : List Verb)
    → NeverPasses ans bad
    → HarmlessSteps steps
    → OneOf bad steps
    → AllHarmless sent
    → ((run_steps ans (steps ++ rest) sent).1 ≡ false)
      × AllHarmless (run_steps ans (steps ++ rest) sent).0
unfolding run_steps
guarded ans bad [] rest sent n h o p = absurd o
guarded ans bad (sets v ∷ steps) rest sent n h (inl e) p = absurd (subst (NeverPasses ans) e n)
guarded ans bad (sets v ∷ steps) rest sent n h (inr o) p =
    let q = AllHarmless-snoc sent v p h.0 in
    elim (Option-cases (ans sent v)) [
      | inl a ↦ rw (a, run_steps) (refl, q)
      | inr (r, a) ↦ rw (a, run_steps) (guarded ans bad steps rest (sent ++ v ∷ []) n h.1 o q)
    ]
guarded ans bad (checks v expected ∷ steps) rest sent n h o p =
    let q = AllHarmless-snoc sent v p h.0 in
    elim (Option-cases (ans sent v)) [
      | inl a ↦ rw (a, run_steps) (refl, q)
      | inr (caps, a) ↦ elim (Bool-cases (contains expected (widget_type caps))) [
        | inr t ↦ rw (a, t, run_steps) (refl, q)
        | inl t ↦ elim o [
          | inl e ↦ let f = subst (NeverPasses ans) e n sent caps a in absurd (ground (arith, f, t))
          | inr o' ↦ rw (a, t, run_steps) (guarded ans bad steps rest (sent ++ v ∷ []) n h.1 o' q)
        ]
      ]
    ]

-- If one of the widget checks never passes, whatever has been sent before it, the set-up of the
-- codec fails, and all that the codec has been sent are reads of parameters and verbs to its
-- function group.
pub init_playback_guarded :
    (ans : Answers) (cad fmt stream_tag : ℕ) (bad : Step)
    → OneOf bad (widget_checks cad)
    → NeverPasses ans bad
    → ((init_playback ans cad fmt stream_tag).1 ≡ false)
      × AllHarmless (init_playback ans cad fmt stream_tag).0
unfolding init_playback
init_playback_guarded ans cad fmt stream_tag bad o n =
    guarded ans bad (wake_step cad ∷ widget_checks cad) (playback_steps cad fmt stream_tag) [] n
      (inr refl, (inl refl, (inl refl, (inl refl, (inl refl, (inl refl, (inl refl, tt))))))) (inr o)
      tt
