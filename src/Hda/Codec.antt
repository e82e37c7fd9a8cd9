-- ===== src/Hda/Codec.antt =====
-- hda/src/codec.rs: the verbs that set up the codec. How the codec answers is a function of the
-- verbs sent before and of the verb; `none` is an error of the transport.
pub mod Guard
use audiod.Prelude.{
  ℕ, zero, suc, ◌+◌, ◌*◌, ◌/◌, ◌^◌, Bool, true, false, not, ◌||◌, Option, none, some, List, [], ◌∷◌,
  ◌++◌, ◌==◌, if◌then◌else◌, bit_and, bit_or,
}

-- Codec address, node, verb and payload.
pub record Verb : Type 0 where
  pub cad : ℕ
  pub nid : ℕ
  pub verb : ℕ
  pub payload : ℕ

abbrev pub Answers : Type 0
Answers = List Verb → Verb → Option ℕ

-- A verb that sets something, or the reading of a widget's type, of which some are expected.
pub data Step : Type 0 where
  sets : Verb → Step
  checks : Verb → List ℕ → Step

abbrev pub verb_of : Step → Verb
verb_of (sets v) = v
verb_of (checks v expected) = v

abbrev pub nid_afg : ℕ
nid_afg = 0x01

abbrev pub nid_dac_spk : ℕ
nid_dac_spk = 0x02

abbrev pub nid_dac_hp : ℕ
nid_dac_hp = 0x03

abbrev pub nid_mux_spk : ℕ
nid_mux_spk = 0x0c

abbrev pub nid_mux_hp : ℕ
nid_mux_hp = 0x0d

abbrev pub nid_pin_spk : ℕ
nid_pin_spk = 0x14

abbrev pub nid_pin_hp : ℕ
nid_pin_hp = 0x15

abbrev pub verb_param : ℕ
verb_param = 0xf00

abbrev pub default_gain : ℕ
default_gain = 0x44

abbrev pub set_power : ℕ → ℕ → ℕ → Step
set_power cad nid state = sets (record { cad = cad; nid = nid; verb = 0x705; payload = state })

-- AC_AMP_OUTPUT | AC_AMP_LEFT | AC_AMP_RIGHT, the gain, and AC_AMP_MUTE
abbrev pub set_output_amp : ℕ → ℕ → ℕ → Bool → Step
set_output_amp cad nid gain mute = sets (record {
  cad = cad;
  nid = nid;
  verb = 0x300;
  payload = bit_or 0xb000 (bit_or (bit_and gain 0x7f) (if mute then 0x80 else 0));
})

abbrev pub set_input_amp : ℕ → ℕ → ℕ → ℕ → Bool → Step
set_input_amp cad nid index gain mute = sets (record {
  cad = cad;
  nid = nid;
  verb = 0x300;
  payload =
      bit_or (bit_or (bit_and index 0xf * 2 ^ 8) 0x3000)
        (bit_or (bit_and gain 0x7f) (if mute then 0x80 else 0));
})

-- `check_widget`, with AC_PAR_AUDIO_WIDGET_CAP.
abbrev pub check_widget : ℕ → ℕ → List ℕ → Step
check_widget cad nid expected =
    checks (record { cad = cad; nid = nid; verb = verb_param; payload = 0x09 }) expected

-- The type field of the widget's capabilities.
abbrev pub widget_type : ℕ → ℕ
widget_type caps = bit_and (caps / 2 ^ 20) 0xf

abbrev pub contains : List ℕ → ℕ → Bool
contains [] t = false
contains (x ∷ xs) t = (x == t) || contains xs t

-- The steps one by one, behind the verbs of `sent`: all verbs sent, and whether all went well.
unfoldable pub run_steps : Answers → List Step → List Verb → List Verb × Bool
run_steps ans [] sent = (sent, true)
run_steps ans (sets v ∷ steps) sent = elim (ans sent v) [
  | none ↦ (sent ++ v ∷ [], false)
  | some r ↦ run_steps ans steps (sent ++ v ∷ [])
]
run_steps ans (checks v expected ∷ steps) sent = elim (ans sent v) [
  | none ↦ (sent ++ v ∷ [], false)
  | some caps ↦ elim (contains expected (widget_type caps)) [
    | true ↦ run_steps ans steps (sent ++ v ∷ [])
    | false ↦ (sent ++ v ∷ [], false)
  ]
]

-- AC_WID_AUD_OUT is 0, AC_WID_AUD_MIX is 2, AC_WID_AUD_SEL is 3, AC_WID_PIN is 4.
abbrev pub widget_checks : ℕ → List Step
widget_checks cad =
    check_widget cad nid_dac_spk (0 ∷ [])
    ∷ check_widget cad nid_dac_hp (0 ∷ [])
    ∷ check_widget cad nid_mux_spk (2 ∷ 3 ∷ [])
    ∷ check_widget cad nid_mux_hp (2 ∷ 3 ∷ [])
    ∷ check_widget cad nid_pin_spk (4 ∷ [])
    ∷ check_widget cad nid_pin_hp (4 ∷ [])
    ∷ []

-- One way from a converter to its pin: the stream and the format of the converter, its gain, the
-- selected connection, and the pin's controls.
abbrev pub path_steps : ℕ → ℕ → ℕ → ℕ → ℕ → ℕ → ℕ → ℕ → List Step
path_steps cad dac mux pin conn control fmt stream_tag =
    set_power cad dac 0
    ∷ sets (record { cad = cad; nid = dac; verb = 0x706; payload = stream_tag * 2 ^ 4 })
    ∷ sets (record { cad = cad; nid = dac; verb = 0x200; payload = fmt })
    ∷ set_output_amp cad dac default_gain false
    ∷ set_power cad mux 0
    ∷ sets (record { cad = cad; nid = mux; verb = 0x701; payload = conn })
    ∷ set_input_amp cad mux conn 0 false
    ∷ set_power cad pin 0
    ∷ sets (record { cad = cad; nid = pin; verb = 0x707; payload = control })
    ∷ sets (record { cad = cad; nid = pin; verb = 0x70c; payload = 2 })
    ∷ set_output_amp cad pin 0 false
    ∷ []

-- The speaker's way, then the headphone's.
abbrev pub playback_steps : ℕ → ℕ → ℕ → List Step
playback_steps cad fmt stream_tag =
    path_steps cad nid_dac_spk nid_mux_spk nid_pin_spk 0 0x40 fmt stream_tag
    ++ path_steps cad nid_dac_hp nid_mux_hp nid_pin_hp 1 0xc0 fmt stream_tag

abbrev pub wake_step : ℕ → Step
wake_step cad = set_power cad nid_afg 0

unfoldable pub init_playback : Answers → ℕ → ℕ → ℕ → List Verb × Bool
init_playback ans cad fmt stream_tag =
    run_steps ans (wake_step cad ∷ widget_checks cad ++ playback_steps cad fmt stream_tag) []

-- Both converters.
unfoldable pub set_mute : Answers → ℕ → Bool → List Verb × Bool
set_mute ans cad mute =
    run_steps ans
      (set_output_amp cad nid_dac_spk default_gain mute
        ∷ set_output_amp cad nid_dac_hp default_gain mute
        ∷ [])
      []

-- `headphone_present`: the presence bit of the headphone pin's sense, or an error.
unfoldable pub headphone_present : Answers → ℕ → Option Bool
headphone_present ans cad =
    elim (ans [] (record { cad = cad; nid = nid_pin_hp; verb = 0x709; payload = 0 })) [
      | none ↦ none
      | some sense ↦ some (not (bit_and sense (2 ^ 31) == 0))
    ]

-- `output_path`, which the source gives as a text.
pub data OutputPath : Type 0 where
  to_headphone to_speakers not_known : OutputPath

unfoldable pub output_path : Answers → ℕ → OutputPath
unfolding headphone_present
output_path ans cad = elim (headphone_present ans cad) [
  | none ↦ not_known
  | some present ↦ if present then to_headphone else to_speakers
]

pub record Codec : Type 0 where
  pub vendor_id : ℕ
  pub subsystem_id : ℕ

abbrev pub or_zero : Option ℕ → ℕ
or_zero none = 0
or_zero (some v) = v

-- The first one that was found stays.
abbrev pub or_else : Option (ℕ × Codec) → ℕ × Codec → Option (ℕ × Codec)
or_else none found = some found
or_else (some f) found = some f

-- What one address of the link answers to `probe`; a failed read of the subsystem counts as 0.
unfoldable pub probe_one : (ℕ → ℕ → ℕ → ℕ → Option ℕ) → ℕ → Option Codec
probe_one ask cad =
    let root = or_zero (ask cad 0 verb_param 1) in
    elim (ask cad 0 verb_param 0) [
      | none ↦ none
      | some vendor ↦
          if (vendor == 0) || (vendor == 0xffffffff)
          then none
          else some (record {
            vendor_id = vendor;
            subsystem_id = if root == 0 then or_zero (ask cad nid_afg 0xf20 0) else root;
          })
    ]

-- The loop over the addresses from `cad` on, with the fallback and the Realtek codec found so far.
unfoldable pub probe_from :
    (ℕ → ℕ → ℕ → ℕ → Option ℕ)
    → ℕ
    → ℕ
    → ℕ
    → Option (ℕ × Codec)
    → Option (ℕ × Codec)
    → Option (ℕ × Codec) × Option (ℕ × Codec)
probe_from ask mask zero cad fallback realtek = (fallback, realtek)
probe_from ask mask (suc left) cad fallback realtek =
    elim (if bit_and mask (2 ^ cad) == 0 then none else probe_one ask cad) [
      | none ↦ probe_from ask mask left (cad + 1) fallback realtek
      | some codec ↦ elim realtek [
        | some r ↦ probe_from ask mask left (cad + 1) (or_else fallback (cad, codec)) (some r)
        | none ↦ elim (codec.vendor_id / 2 ^ 16 == 0x10ec) [
          | true ↦ probe_from ask mask left (cad + 1) fallback (some (cad, codec))
          | false ↦ probe_from ask mask left (cad + 1) (or_else fallback (cad, codec)) none
        ]
      ]
    ]

-- `probe`: the first Realtek codec, or else the first one that answers; `none` is an error.
unfoldable pub probe : (ℕ → ℕ → ℕ → ℕ → Option ℕ) → ℕ → Option (ℕ × Codec)
probe ask mask =
    let (fallback, realtek) = probe_from ask mask 4 0 none none in
    elim realtek [ none ↦ fallback | some r ↦ some r ]
