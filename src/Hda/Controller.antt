-- ===== src/Hda/Controller.antt =====
-- hda/src/controller.rs: the place of the playback stream's registers, verbs, and the choice
-- between the two engines that carry them.
pub mod Fallback
pub mod Kept
pub mod Open
pub mod Sound
pub mod Verbs
use audiod.Prelude.{
  ℕ, zero, suc, ◌+◌, ◌*◌, ◌/◌, ◌^◌, Bool, true, false, not, ◌&&◌, Option, none, some, List, leb,
  if◌then◌else◌, bit_and, bit_or,
}
use audiod.Hda.Device.{Device, clear_bits, has_bits}
use audiod.Hda.Corb
use audiod.Hda.Corb.{
  CorbRing, Polls, Result, ok, err, Error, timed_out, would_block, other, unsupported, send,
  wait_response, shutdown,
}

abbrev pub gctl : ℕ
gctl = 0x08

abbrev pub statests : ℕ
statests = 0x0e

abbrev pub ic : ℕ
ic = 0x60

abbrev pub ir : ℕ
ir = 0x64

abbrev pub irs : ℕ
irs = 0x68

abbrev pub irs_busy : ℕ
irs_busy = 1

abbrev pub irs_valid : ℕ
irs_valid = 2

abbrev pub corb_timeout_limit : ℕ
corb_timeout_limit = 3

pub data CmdEngine : Type 0 where
  corb : CorbRing → CmdEngine
  pio : CmdEngine

pub record Controller : Type 0 where
  pub codec_mask : ℕ
  pub gcap : ℕ
  pub cad : ℕ
  pub engine : CmdEngine
  pub corb_timeouts : ℕ
  pub pio_fallback_done : Bool

-- `capture_streams` and `sd_index`: the playback streams come behind the capture streams.
unfoldable pub sd_index : Controller → ℕ
sd_index c = bit_and (c.gcap / 2 ^ 8) 0x0f

unfoldable pub sd0_base : Controller → ℕ
unfolding sd_index
sd0_base c = 0x80 + 0x20 * sd_index c

unfoldable pub sd0_tag : Controller → ℕ
unfolding sd_index
sd0_tag c = sd_index c + 1

unfoldable pub make_verb : ℕ → ℕ → ℕ → ℕ → ℕ
make_verb cad nid verb payload =
    bit_or
      (bit_or (bit_or (bit_and cad 0xf * 2 ^ 28) (bit_and nid 0xff * 2 ^ 20))
        (bit_and verb 0xfff * 2 ^ 8))
      (bit_and payload 0xffff)

-- `degrade_to_pio`, whose effect on the device is to stop the rings.
unfoldable pub degrade_to_pio : Controller → Controller
degrade_to_pio c = record c { engine = pio; corb_timeouts = 0; pio_fallback_done = true }

-- What `verb_raw` does about the outcome of the rings: an answer, or `none` to go over to the
-- immediate commands and issue the verb again.
unfoldable pub settle : Controller → Result ℕ → Controller × Option (Result ℕ)
unfolding degrade_to_pio
settle c (ok r) = (record c { corb_timeouts = 0 }, some (ok r))
settle c (err timed_out) =
    let late = record c { corb_timeouts = c.corb_timeouts + 1 } in
    if leb corb_timeout_limit late.corb_timeouts && not c.pio_fallback_done
    then (degrade_to_pio late, none)
    else (late, some (err timed_out))
settle c (err would_block) =
    if c.pio_fallback_done then (c, some (err would_block)) else (degrade_to_pio c, none)
settle c (err unsupported) =
    if c.pio_fallback_done then (c, some (err unsupported)) else (degrade_to_pio c, none)
settle c (err other) =
    if c.pio_fallback_done then (c, some (err other)) else (degrade_to_pio c, none)

module _ (bus : Device) where
  open bus use {D, read16, read32, write16, write32}

  -- The wait of `pio_verb` for an idle interface, which may be found busy `spins` times.
  unfoldable pub await_idle : ℕ → D → Bool × D
  await_idle zero d = let (v, d') = read16 d irs in (not (has_bits v irs_busy), d')
  await_idle (suc spins) d =
      let (v, d') = read16 d irs in
      elim (has_bits v irs_busy) [ false ↦ (true, d') | true ↦ await_idle spins d' ]

  -- The wait for an answer, over the polls that come before the deadline.
  unfoldable pub await_valid : ℕ → D → Result ℕ × D
  await_valid zero d = (err timed_out, d)
  await_valid (suc polls) d =
      let (v, d') = read16 d irs in
      elim (has_bits v irs_valid) [
        | true ↦ let (r, d'') = read32 d' ir in (ok r, d'')
        | false ↦ await_valid polls d'
      ]

  unfoldable pub pio_verb : ℕ → ℕ → D → Result ℕ × D
  unfolding await_idle await_valid
  pio_verb polls cmdword d =
      let (idle, d1) = await_idle 50 d in
      let d2 = write32 (write16 d1 irs irs_valid) ic cmdword in
      let (v, d3) = read16 d2 irs in
      let d4 = write16 d3 irs (bit_or v irs_busy) in
      if idle then await_valid polls d4 else (err timed_out, d1)

  -- `corb_verb`, with what the hardware shows at each poll before the deadline.
  unfoldable pub corb_verb : CorbRing → ℕ → ℕ → Polls → D → Option (CorbRing × Result ℕ × D)
  unfolding send wait_response
  corb_verb ring cmdword cad polls d = elim (send bus ring cmdword d) [
    | none ↦ none
    | some (err e, d') ↦ some (ring, err e, d')
    | some (ok ring', d') ↦ wait_response bus cad ring' polls d'
  ]

  -- `verb_raw`; `none` is a failed assertion.
  unfoldable pub verb_raw :
      Controller → ℕ → ℕ → ℕ → ℕ → Polls → ℕ → D → Option (Controller × Result ℕ × D)
  unfolding make_verb corb_verb settle pio_verb
  verb_raw c cad nid verb payload polls spins d =
      let cmdword = make_verb cad nid verb payload in
      elim c.engine [
        | pio ↦ let (answer, d') = pio_verb spins cmdword d in some (c, answer, d')
        | corb ring ↦ elim (corb_verb ring cmdword cad polls d) [
          | none ↦ none
          | some (ring', outcome, d1) ↦
              let (c', answer) = settle (record c { engine = corb ring' }) outcome in
              elim answer [
                | some a ↦ some (c', a, d1)
                | none ↦ let (a, d2) = pio_verb spins cmdword (shutdown bus d1) in some (c', a, d2)
              ]
        ]
      ]

  -- The two waits of `reset_link`, over the polls that come before their deadlines.
  unfoldable pub await_link : Bool → ℕ → D → Bool × D
  await_link up zero d = (false, d)
  await_link up (suc polls) d =
      let (g, d') = read32 d gctl in
      elim (has_bits g 1) [
        | true ↦ if up then (true, d') else await_link up polls d'
        | false ↦ if up then await_link up polls d' else (true, d')
      ]

  unfoldable pub reset_link : ℕ → Controller → D → Result Controller × D
  unfolding await_link
  reset_link polls c d =
      let (g0, d0) = read32 d gctl in
      let d1 = if has_bits g0 1 then write16 d0 statests 0x000f else d0 in
      let (g1, d2) = read32 d1 gctl in
      let (down, d3) = await_link false polls (write32 d2 gctl (clear_bits g1 1)) in
      let (g2, d4) = read32 d3 gctl in
      let (up, d5) = await_link true polls (write32 d4 gctl (bit_or g2 1)) in
      let (mask, d6) = read16 d5 statests in
      if not down
      then (err timed_out, d3)
      else if not up
      then (err timed_out, d5)
      else (ok (record c { codec_mask = mask }), d6)
