-- ===== src/Hda/Corb/Init.antt =====
-- hda/src/corb.rs: `CorbRing::init`.
use audiod.Prelude.{ℕ, zero, suc, ◌/◌, ◌%◌, ◌^◌, Bool, true, false, [], ◌==◌}
use audiod.Hda.Device.{Device, has_bits}
use audiod.Hda.Dma
use audiod.Hda.Dma.{DmaBuffer, toaddr}
use audiod.Hda.Corb.{
  CorbRing, rirb_off, other, program_size, corbwp, corbrp, corbctl, rirbwp, rirbctl,
}
use audiod.Hda.Io.{Io, ◌>>=◌, ◌>>◌, give, tell, ask, attempt, or_fail, asserted, guard}

abbrev pub corblbase : ℕ
corblbase = 0x40

abbrev pub corbubase : ℕ
corbubase = 0x44

abbrev pub corbsize : ℕ
corbsize = 0x4e

abbrev pub rirblbase : ℕ
rirblbase = 0x50

abbrev pub rirbubase : ℕ
rirbubase = 0x54

abbrev pub rintcnt : ℕ
rintcnt = 0x5a

abbrev pub rirbsize : ℕ
rirbsize = 0x5e

-- `CORBRP_RST` and `RIRBWP_RST`
abbrev pub pointer_reset : ℕ
pointer_reset = 2 ^ 15

module _ (bus : Device) where
  open bus use {D, read16, write8, write16, write32}

  -- `wait_bit`, which looks once more than there are polls before the limit.
  unfoldable pub wait_bit : ℕ → ℕ → ℕ → D → Bool × D
  wait_bit off bit zero d = let (v, d') = read16 d off in (has_bits v bit, d')
  wait_bit off bit (suc polls) d =
      let (v, d') = read16 d off in
      elim (has_bits v bit) [ true ↦ (true, d') | false ↦ wait_bit off bit polls d' ]

  abbrev pub program_bases : ℕ → ℕ → D → D
  program_bases corb_pa rirb_pa d =
      let d1 = write32 d corblbase (corb_pa % 2 ^ 32) in
      let d2 = write32 d1 corbubase (corb_pa / 2 ^ 32 % 2 ^ 32) in
      let d3 = write32 d2 rirblbase (rirb_pa % 2 ^ 32) in
      write32 d3 rirbubase (rirb_pa / 2 ^ 32 % 2 ^ 32)

  -- RIRBCTL_DMA_EN | RIRBCTL_IRQ_EN, and CORBCTL_RUN
  abbrev pub run_rings : D → D
  run_rings d =
      let d1 = write16 d corbrp 0 in
      let d2 = write16 d1 rirbwp pointer_reset in
      let d3 = write16 d2 rintcnt 1 in let d4 = write8 d3 rirbctl 3 in write8 d4 corbctl 2

  -- The part of `init` behind the allocation of the page.
  unfoldable pub program_rings : DmaBuffer → ℕ → Io D CorbRing
  unfolding wait_bit toaddr
  program_rings rb polls = do
    corb_pa ← asserted (toaddr rb 0)
    rirb_pa ← asserted (toaddr rb rirb_off)
    tell (program_bases corb_pa rirb_pa)
    count ← attempt (program_size bus corbsize)
    rirb_count ← attempt (program_size bus rirbsize)
    guard (rirb_count == count) other
    tell (λ d. write16 (write16 d corbwp 0) corbrp pointer_reset)
    latched ← ask (wait_bit corbrp pointer_reset polls)
    tell run_rings
    give (record { rb = rb; count = count; sw_rp = 0; pending = [] })

  -- `init`, with the pages that the system gives to the buffer.
  unfoldable pub init : (ℕ → ℕ) → ℕ → Io D CorbRing
  unfolding program_rings Dma.new Dma.zero_bytes
  init page_at polls = do
    tell (λ d. write8 (write8 d corbctl 0) rirbctl 0)
    fresh ← or_fail (Dma.new 4096 page_at) other
    program_rings (Dma.zero_bytes fresh) polls
