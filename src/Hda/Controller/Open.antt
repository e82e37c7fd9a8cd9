-- ===== src/Hda/Controller/Open.antt =====
-- hda/src/controller.rs: `Controller::open`.
use audiod.Prelude.{
  ℕ, zero, suc, Bool, true, false, not, Option, none, some, List, [], ◌∷◌, ◌==◌, if◌then◌else◌,
}
use audiod.Hda.Device.{Device, has_bits}
use audiod.Hda.Corb.{CorbRing, Polls, Result, ok, err, timed_out, other}
use audiod.Hda.Corb.Init
use audiod.Hda.Controller.{
  verb_raw, Controller, corb, pio, reset_link, statests, irs, irs_busy, irs_valid,
}
use audiod.Hda.Dbg
use audiod.Hda.Dbg.{CmdEngineKind, DebugOpts}
use audiod.Hda.Pcicfg.{vendor_device, set_snoop, set_master}
use audiod.Hda.Io.{Io, ◌>>=◌, ◌>>◌, give, fail, tell, ask, attempt, guard}

abbrev pub gcap_reg : ℕ
gcap_reg = 0x00

abbrev pub intsts : ℕ
intsts = 0x24

-- GCAP_ISS | GCAP_OSS
abbrev pub gcap_streams : ℕ
gcap_streams = 0xff00

-- INT_CTRL_EN | INT_ALL_STREAM
abbrev pub int_all : ℕ
int_all = 0x7fffffff

-- A vendor that cannot be read counts as 0.
unfoldable pub known_vendor : Io (List ℕ) (Unit {0})
unfolding vendor_device
known_vendor f = elim (vendor_device f) [
  | none ↦ none
  | some (err e, f') ↦ fail other f'
  | some (ok (vendor, device), f') ↦ guard (not (vendor == 0)) other f'
]

-- The part of `open` that sets up the slot.
unfoldable pub pci_setup : Io (List ℕ) (Unit {0})
unfolding known_vendor
pci_setup = do known_vendor; set_snoop; enabled ← set_master; give tt

-- A verb that a client of the controller issues, with the polls before its deadlines.
pub record Request : Type 0 where
  pub cad : ℕ
  pub nid : ℕ
  pub verb : ℕ
  pub payload : ℕ
  pub polls : Polls
  pub spins : ℕ

module _ (bus : Device) where
  open bus use {D, read16, write16, write32}

  -- The wait without a reset for an idle interface, which may be found busy `spins` times.
  unfoldable pub await_unstuck : ℕ → D → Result (Unit {0}) × D
  await_unstuck zero d =
      let (v, d') = read16 d irs in (if has_bits v irs_busy then err timed_out else ok tt, d')
  await_unstuck (suc spins) d =
      let (v, d') = read16 d irs in
      elim (has_bits v irs_busy) [
        | false ↦ (ok tt, d')
        | true ↦ await_unstuck spins (write16 d' irs irs_valid)
      ]

  -- The link after a reset, or as it is found.
  unfoldable pub settle_link : Bool → ℕ → Controller → Io D Controller
  unfolding reset_link await_unstuck
  settle_link false polls c = do
    reset ← attempt (reset_link bus polls c)
    mask ← ask (λ d. read16 d statests)
    give (record reset { codec_mask = mask })
  settle_link true polls c = do attempt (await_unstuck 50); give (record c { codec_mask = 1 })

  -- An error of the rings leaves the immediate commands.
  abbrev pub adopt : Controller → Option (Result CorbRing × D) → Option (Result Controller × D)
  adopt c none = none
  adopt c (some (ok ring, d)) = some (ok (record c { engine = corb ring }), d)
  adopt c (some (err e, d)) = some (ok (record c { pio_fallback_done = true }), d)

  unfoldable pub init_cmd_engine : Option CmdEngineKind → (ℕ → ℕ) → ℕ → Controller → Io D Controller
  unfolding Init.init
  init_cmd_engine (some Dbg.pio) page_at polls c d = some (ok c, d)
  init_cmd_engine (some Dbg.corb) page_at polls c d = adopt c (Init.init bus page_at polls d)
  init_cmd_engine none page_at polls c d = adopt c (Init.init bus page_at polls d)

  -- The part of `open` that brings the controller up.
  unfoldable pub bring_up : DebugOpts → (ℕ → ℕ) → ℕ → Io D Controller
  unfolding settle_link init_cmd_engine
  bring_up dbg page_at polls = do
    gcap ← ask (λ d. read16 d gcap_reg)
    guard (has_bits gcap gcap_streams) other
    let found : Controller = record {
      codec_mask = 0;
      gcap = gcap;
      cad = 0;
      engine = pio;
      corb_timeouts = 0;
      pio_fallback_done = false;
    }
    settled ← settle_link dbg.skip_reset polls found
    tell (λ d. write32 d intsts int_all)
    init_cmd_engine dbg.cmd_engine page_at polls settled

  -- `open`, once the registers are mapped: the slot's configuration is changed first.
  unfoldable pub open_controller :
      DebugOpts
      → (ℕ → ℕ)
      → ℕ
      → List ℕ
      → D
      → Option (Result Controller × D) × Option (Result (Unit {0}) × List ℕ)
  unfolding pci_setup bring_up
  open_controller dbg page_at polls config d = elim (pci_setup config) [
    | none ↦ (none, none)
    | some (err e, config') ↦ (some (err e, d), some (err e, config'))
    | some (ok u, config') ↦ (bring_up dbg page_at polls d, some (ok u, config'))
  ]

  -- `cmd` and `cmd_quiet`, which differ in what they log.
  unfoldable pub cmd : Controller → Request → D → Option (Controller × Result ℕ × D)
  unfolding verb_raw
  cmd c r d = verb_raw bus c r.cad r.nid r.verb r.payload r.polls r.spins d

  -- One after the other, whatever each of them gives; `none` is a failed assertion.
  unfoldable pub run_cmds : Controller → List Request → D → Option (Controller × D)
  run_cmds c [] d = some (c, d)
  run_cmds c (r ∷ requests) d = elim (cmd c r d) [
    | none ↦ none
    | some (c', answer, d') ↦ run_cmds c' requests d'
  ]
