-- ===== src/Hda/Playback/Finished.antt =====
-- The set-up of the codec at the end of `HdaPlayback::open`, and the dumps around it.
use audiod.Prelude.{
  ℕ, ◌≡◌, refl, sym, ap, ap₂, ◌∙◌, inl, inr, Bool, true, false, List, [], ◌∷◌, ◌++◌, map,
  Bool-cases,
}
use mathlib.Core.List.{append_assoc, append-nil}
use audiod.Hda.Device.{Device}
use audiod.Hda.Corb.{Polls, Result, ok, err}
use audiod.Hda.Controller.{Controller, sd0_tag}
use audiod.Hda.Controller.Sound.{IsReady}
use audiod.Hda.Controller.Kept.{IsSame, sd0_tag-IsSame}
use audiod.Hda.Codec.{Codec, Verb, Step, sets, checks, verb_of, contains, widget_type}
use audiod.Hda.Stream.{Stream}
use audiod.Hda.Playback.{HdaPlayback}
use audiod.Hda.Dbg.{DebugOpts}
use audiod.Hda.Io.{give, after, ◌>>=◌, attempt}
use audiod.Hda.Playback.Open.{
  Link, controller_of, outcome, try_cmd, take_step, take_steps, all_steps,
}
use audiod.Hda.Playback.Dump.{dump_topology, dump_state}
use audiod.Hda.Playback.Session.{show_topology, show_state, set_up, finish_open}
use audiod.Hda.Playback.Quiet.{AllQuiet, IsCalm, Calms-Meets, dumps_lem}
use audiod.Hda.Playback.Probed.{Meets, Meets-after, Meets-weaken, Ready, try_cmd-Meets}

Meets-outcome :
    {D : Type 0} (P : Unit {0} → Link D → Type 0) (s : Step) (answer : Result ℕ) (l : Link D)
    → P tt l
    → Meets P (attempt (λ (l : Link D). (outcome s answer, l)) l)
Meets-outcome P (sets v) (err e) l h = tt
Meets-outcome P (checks v expected) (err e) l h = tt
Meets-outcome P (sets v) (ok r) l h = h
Meets-outcome P (checks v expected) (ok caps) l h =
    elim (Bool-cases (contains expected (widget_type caps))) [ inl z ↦ rw z h | inr z ↦ rw z tt ]

module _ (bus : Device) where
  open bus use {D}

  module _ (shows : D → Polls) (spins : ℕ) where
    -- The verbs that have been sent so far, by the controller as it was but for its engine.
    abbrev Sent : Controller → List Verb → Unit {0} → Link D → Type 0
    Sent c verbs u l = Ready bus u l × (l.sent ≡ verbs) × IsSame c l.controller

    take_step-Sent :
        (s : Step) (l : Link D)
        → Ready bus s l
        → Meets (Sent l.controller (l.sent ++ verb_of s ∷ [])) (take_step bus shows spins s l)
    unfolding take_step
    take_step-Sent s l h =
        Meets-after _ (Sent l.controller (l.sent ++ verb_of s ∷ []))
          (try_cmd bus shows spins (verb_of s) l) _ (try_cmd-Meets bus shows spins (verb_of s) l h)
          (λ answer l1 h1.
            Meets-outcome (Sent l.controller (l.sent ++ verb_of s ∷ [])) s answer l1 h1)

    take_steps-Sent :
        (steps : List Step) (l : Link D)
        → Ready bus steps l
        → Meets
            (Sent l.controller (l.sent ++ map verb_of steps))
            (take_steps bus shows spins steps l)
    unfolding take_steps
    take_steps-Sent [] l h = (h, sym (append-nil l.sent), (refl, refl))
    take_steps-Sent (s ∷ steps) l h =
        Meets-after (Sent l.controller (l.sent ++ verb_of s ∷ []))
          (Sent l.controller (l.sent ++ map verb_of (s ∷ steps))) (take_step bus shows spins s l) _
          (take_step-Sent s l h)
          (λ u l1 h1.
            let behind =
              ap (λ (verbs : List Verb). verbs ++ map verb_of steps) h1.1
              ∙ append_assoc l.sent (verb_of s ∷ []) (map verb_of steps) in
            Meets-weaken (Sent l1.controller (l1.sent ++ map verb_of steps))
              (Sent l.controller (l.sent ++ map verb_of (s ∷ steps)))
              (take_steps bus shows spins steps l1) (take_steps-Sent steps l1 h1.0)
              (λ u' l2 h2. (h2.0, h2.1 ∙ behind, (h2.2.0 ∙ h1.2.0, h2.2.1 ∙ h1.2.1))))

    -- What is sent behind the set-up: nothing, or verbs of a dump, which change nothing.
    abbrev pub Behind : Bool → List Verb → Type 0
    Behind false verbs = verbs ≡ []
    Behind true verbs = AllQuiet verbs

    -- Where the set-up of the codec is not skipped, all its verbs have been sent, in order and
    -- last but for the dump.
    abbrev pub Opened : Bool → Bool → ℕ → Codec × HdaPlayback → List Verb → Type 0
    Opened true dump rate opened sent = IsReady bus opened.1.controller
    Opened false dump rate opened sent =
        let c = opened.1.controller in
        IsReady bus c
        × (before : List Verb) × (behind : List Verb) × Behind dump behind
        × (sent
            ≡ before ++ map verb_of (all_steps bus shows spins c.cad rate (sd0_tag c)) ++ behind)

    -- What a wanted dump leaves.
    Shown : Bool → Link D → Unit {0} → Link D → Type 0
    Shown wanted l u l' =
        Ready bus u l'
        × (behind : List Verb) × Behind wanted behind
        × (l'.sent ≡ l.sent ++ behind)
        × IsSame l.controller l'.controller

    show_state-Shown :
        (wanted : Bool) (l : Link D)
        → Ready bus wanted l
        → Meets (Shown wanted l) (show_state bus shows spins wanted l)
    unfolding show_state Shown
    show_state-Shown false l h = (h, [], refl, sym (append-nil l.sent), (refl, refl))
    show_state-Shown true l h =
        Meets-after (λ nodes l'. IsCalm bus l l') (Shown true l) (dump_state bus shows spins l) _
          (Calms-Meets bus (Unit {0}) l _ (dumps_lem bus shows spins l h).1)
          (λ nodes l1 h1. (h1.ready, h1.verbs, h1.quiet, h1.sent, h1.same))

    pub show_topology-Ready :
        (wanted : Bool) (l : Link D)
        → Ready bus wanted l
        → Meets (Ready bus) (show_topology bus shows spins wanted l)
    unfolding show_topology
    show_topology-Ready false l h = h
    show_topology-Ready true l h =
        Meets-after (λ widgets l'. IsCalm bus l l') (Ready bus) (dump_topology bus shows spins l) _
          (Calms-Meets bus ⊥ l _ (dumps_lem bus shows spins l h).0) (λ widgets l1 h1. h1.ready)

    set_up-Opened :
        (skip dump : Bool) (rate : ℕ) (codec : Codec) (s : Stream) (l : Link D)
        → Ready bus s l
        → Meets
            (λ o l. Opened skip dump rate o l.sent)
            (after (set_up bus shows spins skip dump rate l.controller l) (λ u.
              controller_of >>= λ c'. give (
                codec,
                record {
                  controller = c';
                  stream = s;
                  rate = rate;
                  running = false;
                  bytes_written = 0;
                },
              )))
    unfolding set_up Shown
    set_up-Opened true dump rate codec s l h = h
    set_up-Opened false dump rate codec s l h =
        let c = l.controller in
        let steps_of = all_steps bus shows spins in
        let steps = steps_of c.cad rate (sd0_tag c) in
        let P = λ (o : Codec × HdaPlayback) (l : Link D). Opened false dump rate o l.sent in
        let Q = λ (u : Unit {0}) (l' : Link D).
          Ready bus u l'
          × (behind : List Verb) × Behind dump behind
          × (l'.sent ≡ l.sent ++ map verb_of steps ++ behind)
          × IsSame c l'.controller in
        Meets-after Q P _ _
          (Meets-after (Sent c (l.sent ++ map verb_of steps)) Q (take_steps bus shows spins steps l)
            (λ u. show_state bus shows spins dump) (take_steps-Sent steps l h)
            (λ u l1 h1.
              Meets-weaken (Shown dump l1) Q _ (show_state-Shown dump l1 h1.0) (λ u' l2 h2.
                let (ready, behind, quiet, sent, same) = h2 in
                (
                  ready,
                  behind,
                  quiet,
                  sent ∙ ap (λ (vs : List Verb). vs ++ behind) h1.1,
                  (same.0 ∙ h1.2.0, same.1 ∙ h1.2.1),
                ))))
          (λ u l2 h2.
            let (ready, behind, quiet, sent, same) = h2 in
            let tag = sd0_tag-IsSame c l2.controller same in
            let placed =
              ap₂ (λ (cad : ℕ) (tag : ℕ). l.sent ++ map verb_of (steps_of cad rate tag) ++ behind)
                (sym same.0) (sym tag) in
            (ready, l.sent, behind, quiet, sent ∙ placed))

    pub finish_open-Opened :
        (dbg : DebugOpts) (rate : ℕ) (codec : Codec) (s : Stream) (l : Link D)
        → Ready bus s l
        → Meets
            (λ o l. Opened dbg.skip_codec_init dbg.dump_state rate o l.sent)
            (finish_open bus shows spins dbg rate codec s l)
    unfolding finish_open
    finish_open-Opened dbg = set_up-Opened dbg.skip_codec_init dbg.dump_state
