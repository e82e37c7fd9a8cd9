-- ===== src/Hda/Playback/Probed.antt =====
-- What holds of a sequence of verbs, and of `Codec::probe`, on any device.
use audiod.Prelude.{
  ℕ, zero, suc, ◌+◌, ◌^◌, ◌≡◌, refl, inl, inr, Bool, true, false, ◌||◌, Option, none, some, [], ◌∷◌,
  ◌++◌, ◌==◌, if◌then◌else◌, Bool-cases, bit_and,
}
use audiod.Hda.Device.{Device}
use audiod.Hda.Corb.{Polls, Result, Error, ok, err, other}
use audiod.Hda.Controller.Open.{cmd}
use audiod.Hda.Controller.Sound.{IsReady, cmd-IsReady}
use audiod.Hda.Controller.Kept.{IsSame, verb_raw-IsSame}
use audiod.Hda.Codec.{Verb}
use audiod.Hda.Io.{Io, after, give, or_fail, guard}
use audiod.Hda.Playback.Open.{
  Link, Found, choose, value_or, request, try_cmd, vendor_read, subsystem_read, revision_read,
  group_read, identify, probe_at, probe_all, probe,
}

-- No assertion fails, and what is given and what is left are as `P` says.
abbrev pub Meets : {D A : Type 0} → (A → Link D → Type 0) → Option (Result A × Link D) → Type 0
Meets P none = ⊥
Meets P (some (err e, l)) = Unit {0}
Meets P (some (ok a, l)) = P a l

pub Meets-after :
    {D A B : Type 0} (P : A → Link D → Type 0) (Q : B → Link D → Type 0)
    (r : Option (Result A × Link D)) (f : A → Io (Link D) B)
    → Meets P r
    → ((a : A) (l : Link D) → P a l → Meets Q (f a l))
    → Meets Q (after r f)
Meets-after P Q none f h k = absurd h
Meets-after P Q (some (err e, l)) f h k = tt
Meets-after P Q (some (ok a, l)) f h k = k a l h

pub Meets-weaken :
    {D A : Type 0} (P Q : A → Link D → Type 0) (r : Option (Result A × Link D))
    → Meets P r
    → ((a : A) (l : Link D) → P a l → Q a l)
    → Meets Q r
Meets-weaken P Q none h k = absurd h
Meets-weaken P Q (some (err e, l)) h k = tt
Meets-weaken P Q (some (ok a, l)) h k = k a l h

pub Meets-guard :
    {D : Type 0} (P : Unit {0} → Link D → Type 0) (test : Bool) (e : Error) (l : Link D)
    → P tt l
    → Meets P (guard test e l)
Meets-guard P true e l h = h
Meets-guard P false e l h = tt

pub Meets-or_fail :
    {D A : Type 0} (P : A → Link D → Type 0) (o : Option A) (e : Error) (l : Link D)
    → ((a : A) → o ≡ some a → P a l)
    → Meets P (or_fail o e l)
Meets-or_fail P none e l h = tt
Meets-or_fail P (some a) e l h = h a refl

module _ (bus : Device) where
  open bus use {D}

  abbrev pub Ready : {A : Type 0} → A → Link D → Type 0
  Ready a l = IsReady bus l.controller

  module _ (shows : D → Polls) (spins : ℕ) where
    -- A verb is taken down, whatever its answer.
    pub try_cmd-Meets :
        (v : Verb) (l : Link D)
        → Ready v l
        → Meets
            (λ (r : Result ℕ) (l' : Link D).
              Ready v l' × (l'.sent ≡ l.sent ++ v ∷ []) × IsSame l.controller l'.controller)
            (try_cmd bus shows spins v l)
    unfolding try_cmd cmd
    try_cmd-Meets v l h =
        let (c', a, d', e, h') =
          cmd-IsReady bus l.controller (request bus shows spins v l.device) l.device h in
        rw (e, try_cmd)
          (
            h',
            refl,
            verb_raw-IsSame bus l.controller c' v.cad v.nid v.verb v.payload (shows l.device) spins
                l.device d' a e,
          )

    try_cmd-Ready : (v : Verb) (l : Link D) → Ready v l → Meets Ready (try_cmd bus shows spins v l)
    unfolding try_cmd
    try_cmd-Ready v l h =
        let (c', a, d', e, h') =
          cmd-IsReady bus l.controller (request bus shows spins v l.device) l.device h in
        rw (e, try_cmd) h'

    identify-Ready :
        (cad vendor : ℕ) (l : Link D)
        → Ready cad l
        → Meets Ready (identify bus shows spins cad vendor l)
    unfolding identify
    identify-Ready cad vendor l h =
        Meets-after Ready Ready (try_cmd bus shows spins (subsystem_read cad) l) _
          (try_cmd-Ready (subsystem_read cad) l h)
          (λ root l1 h1.
            Meets-after Ready Ready (try_cmd bus shows spins (revision_read cad) l1) _
              (try_cmd-Ready (revision_read cad) l1 h1)
              (λ revision l2 h2.
                Meets-after Ready Ready
                  ((if value_or root 0 == 0
                      then try_cmd bus shows spins (group_read cad)
                      else give root)
                    l2)
                  _
                  (elim (Bool-cases (value_or root 0 == 0)) [
                    | inl z ↦ rw z (try_cmd-Ready (group_read cad) l2 h2)
                    | inr z ↦ rw z h2
                  ])
                  (λ group l3 h3. h3)))

    probe_at-Ready :
        (cad : ℕ) (found : Found) (l : Link D)
        → Ready cad l
        → Meets Ready (probe_at bus shows spins cad found l)
    unfolding probe_at
    probe_at-Ready cad found l h =
        Meets-after Ready Ready (try_cmd bus shows spins (vendor_read cad) l) _
          (try_cmd-Ready (vendor_read cad) l h)
          (λ vendor l1 h1.
            let v = value_or vendor 0 in
            elim (Bool-cases ((v == 0) || (v == 0xffffffff))) [
              | inl z ↦ rw z h1
              | inr z ↦ rw z (
                  Meets-after Ready Ready (identify bus shows spins cad v l1) _
                    (identify-Ready cad v l1 h1) (λ codec l2 h2. h2))
            ])

    probe_all-Ready :
        (left cad : ℕ) (found : Found) (l : Link D)
        → Ready cad l
        → Meets Ready (probe_all bus shows spins left cad found l)
    unfolding probe_all
    probe_all-Ready zero cad found l h = h
    probe_all-Ready (suc left) cad found l h =
        Meets-after Ready Ready
          ((if bit_and l.controller.codec_mask (2 ^ cad) == 0
              then give found
              else probe_at bus shows spins cad found)
            l)
          _
          (elim (Bool-cases (bit_and l.controller.codec_mask (2 ^ cad) == 0)) [
            | inl z ↦ rw z h
            | inr z ↦ rw z (probe_at-Ready cad found l h)
          ])
          (λ next l1 h1. probe_all-Ready left (cad + 1) next l1 h1)

    pub probe-Ready : (l : Link D) → Ready l l → Meets Ready (probe bus shows spins l)
    unfolding probe
    probe-Ready l h =
        Meets-after Ready Ready (probe_all bus shows spins 4 0 (none, none) l) _
          (probe_all-Ready 4 0 (none, none) l h)
          (λ found l1 h1.
            Meets-after Ready Ready (or_fail (choose found) other l1) _
              (Meets-or_fail Ready (choose found) other l1 (λ chosen e. h1)) (λ chosen l2 h2. h2))
