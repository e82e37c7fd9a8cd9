-- ===== src/Hda/Playback/Open.antt =====
-- hda/src/lib.rs: `Codec::probe` and `Codec::init_playback` over the controller that
-- `HdaPlayback::open` has opened.
use audiod.Prelude.{
  ℕ, zero, suc, ◌+◌, ◌^◌, Option, none, some, List, [], ◌∷◌, ◌++◌, ◌==◌, ◌||◌, ◌/◌, if◌then◌else◌,
  bit_and,
}
use audiod.Hda.Device.{Device}
use audiod.Hda.Dma
use audiod.Hda.Dma.{DmaBuffer}
use audiod.Hda.Corb.{Polls, Result, ok, err, other}
use audiod.Hda.Controller.{Controller}
use audiod.Hda.Controller.Open.{Request, cmd}
use audiod.Hda.Codec.{
  Codec, Verb, Step, sets, checks, verb_of, nid_afg, verb_param, contains, widget_type, or_else,
  wake_step, widget_checks, playback_steps,
}
use audiod.Hda.Rate.{format_val}
use audiod.Hda.Stream.{Stream, ring_size}
use audiod.Hda.Io.{Io, ◌>>=◌, ◌>>◌, give, attempt, or_fail}

-- The result of a verb as a value, for a caller that goes on after an error.
abbrev pub value_or : Result ℕ → ℕ → ℕ
value_or (err e) d = d
value_or (ok v) d = v

-- The controller, the verbs that it has been given, and the device.
pub record Link (D : Type 0) : Type 0 where
  pub controller : Controller
  pub sent : List Verb
  pub device : D

abbrev pub controller_of : {D : Type 0} → Io (Link D) Controller
controller_of l = some (ok l.controller, l)

-- What is done to the device alone, and to the controller alone.
abbrev pub on_device : {D A : Type 0} → (D → Option (A × D)) → Io (Link D) A
on_device f l = elim (f l.device) [
  | none ↦ none
  | some (a, d) ↦ some (ok a, record l { device = d })
]

abbrev pub select : {D : Type 0} → ℕ → Io (Link D) (Unit {0})
select cad l = some (ok tt, record l { controller = record l.controller { cad = cad } })

-- `probe` reads these four of an address, the last one only where the second is 0.
abbrev pub vendor_read : ℕ → Verb
vendor_read cad = record { cad = cad; nid = 0; verb = verb_param; payload = 0 }

abbrev pub subsystem_read : ℕ → Verb
subsystem_read cad = record { cad = cad; nid = 0; verb = verb_param; payload = 1 }

abbrev pub revision_read : ℕ → Verb
revision_read cad = record { cad = cad; nid = 0; verb = verb_param; payload = 2 }

abbrev pub group_read : ℕ → Verb
group_read cad = record { cad = cad; nid = nid_afg; verb = 0xf20; payload = 0 }

-- What `probe` has found: the first codec to fall back on, and the first Realtek codec.
abbrev pub Found : Type 0
Found = Option (ℕ × Codec) × Option (ℕ × Codec)

abbrev pub note_codec : Found → ℕ → Codec → Found
note_codec (fallback, some r) cad codec = (or_else fallback (cad, codec), some r)
note_codec (fallback, none) cad codec =
    if codec.vendor_id / 2 ^ 16 == 0x10ec
    then (fallback, some (cad, codec))
    else (or_else fallback (cad, codec), none)

abbrev pub choose : Found → Option (ℕ × Codec)
choose (fallback, none) = fallback
choose (fallback, some r) = some r

-- What becomes of an answer: the type of a widget is compared with those expected.
abbrev pub outcome : Step → Result ℕ → Result (Unit {0})
outcome s (err e) = err e
outcome (sets v) (ok r) = ok tt
outcome (checks v expected) (ok caps) =
    if contains expected (widget_type caps) then ok tt else err other

-- `Stream::new`, a ring and a list of one page.
unfoldable pub new_stream : (ℕ → ℕ) → (ℕ → ℕ) → Option Stream
unfolding Dma.new
new_stream ring_page bdl_page = elim (Dma.new ring_size ring_page) [
  | none ↦ none
  | some ring ↦ elim (Dma.new 4096 bdl_page) [
    | none ↦ none
    | some bdl ↦ some (record { ring = ring; bdl = bdl; entries = 0; write_pos = 0; written = 0 })
  ]
]

module _ (bus : Device) where
  open bus use {D}

  -- What the response ring shows while a verb waits, as the device is, and how often the idle bit of
  -- the immediate commands is looked at.
  module _ (shows : D → Polls) (spins : ℕ) where
    abbrev pub request : Verb → D → Request
    request v d = record {
      cad = v.cad;
      nid = v.nid;
      verb = v.verb;
      payload = v.payload;
      polls = shows d;
      spins = spins;
    }

    -- `Controller::cmd`, whose error is a value here.
    unfoldable pub try_cmd : Verb → Io (Link D) (Result ℕ)
    unfolding cmd
    try_cmd v l = elim (cmd bus l.controller (request v l.device) l.device) [
      | none ↦ none
      | some (c, answer, d) ↦
          some (ok answer, record { controller = c; sent = l.sent ++ v ∷ []; device = d })
    ]

    -- One address, behind its vendor.
    unfoldable pub identify : ℕ → ℕ → Io (Link D) Codec
    unfolding try_cmd
    identify cad vendor = do
      root ← try_cmd (subsystem_read cad)
      revision ← try_cmd (revision_read cad)
      group ← if value_or root 0 == 0 then try_cmd (group_read cad) else give root
      give (record { vendor_id = vendor; subsystem_id = value_or group 0 })

    unfoldable pub probe_at : ℕ → Found → Io (Link D) Found
    unfolding try_cmd identify
    probe_at cad found = do
      vendor ← try_cmd (vendor_read cad)
      let v = value_or vendor 0
      if (v == 0) || (v == 0xffffffff)
          then give found
          else identify cad v >>= λ codec. give (note_codec found cad codec)

    -- The loop over the addresses from `cad` on.
    unfoldable pub probe_all : ℕ → ℕ → Found → Io (Link D) Found
    unfolding probe_at
    probe_all zero cad found = give found
    probe_all (suc left) cad found = do
      c ← controller_of
      next ← if bit_and c.codec_mask (2 ^ cad) == 0 then give found else probe_at cad found
      probe_all left (cad + 1) next

    -- `Codec::probe`, which makes the codec's address the controller's.
    unfoldable pub probe : Io (Link D) Codec
    unfolding probe_all
    probe = do
      found ← probe_all 4 0 (none, none)
      chosen ← or_fail (choose found) other
      select chosen.0
      give chosen.1

    -- One call of `init_playback`, an error of which is passed on.
    unfoldable pub take_step : Step → Io (Link D) (Unit {0})
    unfolding try_cmd
    take_step s = do answer ← try_cmd (verb_of s); attempt (λ l. (outcome s answer, l))

    unfoldable pub take_steps : List Step → Io (Link D) (Unit {0})
    unfolding take_step
    take_steps [] = give tt
    take_steps (s ∷ steps) = do take_step s; take_steps steps

    abbrev pub all_steps : ℕ → ℕ → ℕ → List Step
    all_steps cad rate tag =
        wake_step cad ∷ widget_checks cad ++ playback_steps cad (format_val rate) tag
