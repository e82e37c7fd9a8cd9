-- ===== src/Hda/Mmio/Opened.antt =====
-- The accesses of opening a controller.
use audiod.Prelude.{ℕ, refl, Bool, true, false, Option, none, some, List, ◌==◌}
use audiod.Hda.Device.{Device, has_bits}
use audiod.Hda.Dma
use audiod.Hda.Dma.{DmaBuffer}
use audiod.Hda.Dbg
use audiod.Hda.Dbg.{DebugOpts, CmdEngineKind}
use audiod.Hda.Corb.{
  rirb_off, CorbRing, Result, Error, ok, err, other, program_size, corbwp, corbrp, corbctl, rirbwp,
  rirbctl,
}
use audiod.Hda.Corb.Init.{
  corblbase, corbubase, corbsize, rirblbase, rirbubase, rintcnt, rirbsize, pointer_reset,
  program_bases, run_rings, program_rings, init,
}
use audiod.Hda.Controller.{Controller, pio, statests, reset_link}
use audiod.Hda.Controller.Open.{
  Request, run_cmds, await_unstuck, settle_link, adopt, init_cmd_engine, bring_up, open_controller,
  pci_setup, intsts, gcap_reg, gcap_streams, int_all,
}
use audiod.Hda.Io.{Io, after, or_fail, asserted, guard}
use audiod.Hda.Mmio.{check, mapped}
use audiod.Hda.Mmio.Bounds.{IsFine, read_access-IsFine, write_access-IsFine}
use audiod.Hda.Mmio.Session.{Then}
use audiod.Hda.Mmio.Verbs.{run_cmds-Then}
use audiod.Hda.Mmio.Waits.{
  reset_link-IsFine, await_unstuck-IsFine, program_size-IsFine, wait_bit-IsFine,
}

module _ (bus : Device) where
  open bus use {D}

  abbrev Always : {A : Type 0} → Io (Bool × D) A → Type 0
  Always {A} m =
      (d : Bool × D) → IsFine bus d → Then (λ (r : Result A × (Bool × D)). IsFine bus r.1) (m d)

  after-Then :
      {A B : Type 0} (r : Option (Result A × (Bool × D))) (f : A → Io (Bool × D) B)
      → Then (λ (r : Result A × (Bool × D)). IsFine bus r.1) r
      → ((a : A) → Always (f a))
      → Then (λ (r : Result B × (Bool × D)). IsFine bus r.1) (after r f)
  after-Then none f v k = tt
  after-Then (some (err e, d)) f v k = v
  after-Then (some (ok a, d)) f v k = k a d v

  settle_link-Always :
      (skip : Bool) (polls : ℕ) (c : Controller) → Always (settle_link (mapped bus) skip polls c)
  unfolding settle_link check
  settle_link-Always false polls c d h =
      after-Then (some (reset_link (mapped bus) polls c d)) _ (reset_link-IsFine bus polls c d h)
        (λ reset d' v. read_access-IsFine bus bus.read16 2 d' statests v refl)
  settle_link-Always true polls c d h =
      after-Then (some (await_unstuck (mapped bus) 50 d)) _ (await_unstuck-IsFine bus 50 d h)
        (λ u d' v. v)

  bases-IsFine :
      (corb_pa rirb_pa : ℕ) (d : Bool × D)
      → IsFine bus d
      → IsFine bus (program_bases (mapped bus) corb_pa rirb_pa d)
  unfolding check
  bases-IsFine corb_pa rirb_pa d h =
      write_access-IsFine bus bus.write32 4 _ rirbubase _
        (write_access-IsFine bus bus.write32 4 _ rirblbase _
          (write_access-IsFine bus bus.write32 4 _ corbubase _
            (write_access-IsFine bus bus.write32 4 d corblbase _ h refl) refl)
          refl)
        refl

  run_rings-IsFine : (d : Bool × D) → IsFine bus d → IsFine bus (run_rings (mapped bus) d)
  unfolding check
  run_rings-IsFine d h =
      write_access-IsFine bus bus.write8 1 _ corbctl 2
        (write_access-IsFine bus bus.write8 1 _ rirbctl 3
          (write_access-IsFine bus bus.write16 2 _ rintcnt 1
            (write_access-IsFine bus bus.write16 2 _ rirbwp pointer_reset
              (write_access-IsFine bus bus.write16 2 d corbrp 0 h refl) refl)
            refl)
          refl)
        refl

  reset_pointers-IsFine :
      (d : Bool × D)
      → IsFine bus d
      → IsFine bus (
          Device.write16 (mapped bus) (Device.write16 (mapped bus) d corbwp 0) corbrp pointer_reset)
  unfolding check
  reset_pointers-IsFine d h =
      write_access-IsFine bus bus.write16 2 _ corbrp pointer_reset
        (write_access-IsFine bus bus.write16 2 d corbwp 0 h refl) refl

  asserted-Always : {A : Type 0} (o : Option A) → Always (asserted o)
  asserted-Always none d h = tt
  asserted-Always (some a) d h = h

  guard-Always : (test : Bool) (e : Error) → Always (guard test e)
  guard-Always true e d h = h
  guard-Always false e d h = h

  program_rings-Always : (rb : DmaBuffer) (polls : ℕ) → Always (program_rings (mapped bus) rb polls)
  unfolding program_rings check
  program_rings-Always rb polls d h =
      let m = mapped bus in
      after-Then (asserted (Dma.toaddr rb 0) d) _ (asserted-Always (Dma.toaddr rb 0) d h)
        (λ corb_pa d1 h1.
          after-Then (asserted (Dma.toaddr rb rirb_off) d1) _
            (asserted-Always (Dma.toaddr rb rirb_off) d1 h1)
            (λ rirb_pa d2 h2.
              let d3 = program_bases m corb_pa rirb_pa d2 in
              after-Then (some (program_size m corbsize d3)) _
                (program_size-IsFine bus corbsize d3 refl (bases-IsFine corb_pa rirb_pa d2 h2))
                (λ count d4 h4.
                  after-Then (some (program_size m rirbsize d4)) _
                    (program_size-IsFine bus rirbsize d4 refl h4)
                    (λ rirb_count d5 h5.
                      after-Then (guard (rirb_count == count) other d5) _
                        (guard-Always (rirb_count == count) other d5 h5)
                        (λ u d6 h6. run_rings-IsFine _ (
                          wait_bit-IsFine bus corbrp pointer_reset polls _ refl
                            (reset_pointers-IsFine d6 h6)))))))

  or_fail-Always : {A : Type 0} (o : Option A) (e : Error) → Always (or_fail o e)
  or_fail-Always none e d h = h
  or_fail-Always (some a) e d h = h

  init-Always : (page_at : ℕ → ℕ) (polls : ℕ) → Always (init (mapped bus) page_at polls)
  unfolding init check
  init-Always page_at polls d h =
      let stopped = Device.write8 (mapped bus) (Device.write8 (mapped bus) d corbctl 0) rirbctl 0 in
      after-Then (or_fail (Dma.new 4096 page_at) other stopped) _
        (or_fail-Always (Dma.new 4096 page_at) other stopped (
          write_access-IsFine bus bus.write8 1 _ rirbctl 0
            (write_access-IsFine bus bus.write8 1 d corbctl 0 h refl) refl))
        (λ fresh. program_rings-Always (Dma.zero_bytes fresh) polls)

  adopt-Then :
      (c : Controller) (r : Option (Result CorbRing × (Bool × D)))
      → Then (λ (r : Result CorbRing × (Bool × D)). IsFine bus r.1) r
      → Then (λ (r : Result Controller × (Bool × D)). IsFine bus r.1) (adopt (mapped bus) c r)
  adopt-Then c none v = tt
  adopt-Then c (some (ok ring, d)) v = v
  adopt-Then c (some (err e, d)) v = v

  init_cmd_engine-Always :
      (kind : Option CmdEngineKind) (page_at : ℕ → ℕ) (polls : ℕ) (c : Controller)
      → Always (init_cmd_engine (mapped bus) kind page_at polls c)
  unfolding init_cmd_engine
  init_cmd_engine-Always (some Dbg.pio) page_at polls c d h = h
  init_cmd_engine-Always (some Dbg.corb) page_at polls c d h =
      adopt-Then c _ (init-Always page_at polls d h)
  init_cmd_engine-Always none page_at polls c d h = adopt-Then c _ (init-Always page_at polls d h)

  bring_up-Always :
      (dbg : DebugOpts) (page_at : ℕ → ℕ) (polls : ℕ)
      → Always (bring_up (mapped bus) dbg page_at polls)
  unfolding bring_up check
  bring_up-Always dbg page_at polls d h =
      let m = mapped bus in
      let (gcap, d1) = Device.read16 m d gcap_reg in
      let found : Controller = record {
        codec_mask = 0;
        gcap = gcap;
        cad = 0;
        engine = pio;
        corb_timeouts = 0;
        pio_fallback_done = false;
      } in
      after-Then (guard (has_bits gcap gcap_streams) other d1) _
        (guard-Always (has_bits gcap gcap_streams) other d1
          (read_access-IsFine bus bus.read16 2 d gcap_reg h refl))
        (λ u d2 h2.
          after-Then (settle_link m dbg.skip_reset polls found d2) _
            (settle_link-Always dbg.skip_reset polls found d2 h2)
            (λ c d3 h3.
              init_cmd_engine-Always dbg.cmd_engine page_at polls c _
                (write_access-IsFine bus bus.write32 4 d3 intsts int_all h3 refl)))

  -- Over the mapping of the registers, on any device and with any options, pages and answers,
  -- opening a controller, and any sequence of verbs on a controller, make no access that is
  -- misaligned or out of bounds, if none has been made before.
  pub controller_lem :
      (dbg : DebugOpts) (page_at : ℕ → ℕ) (polls : ℕ) (config : List ℕ) (c : Controller)
      (requests : List Request) (d : Bool × D)
      → IsFine bus d
      → Then
          (λ (r : Result Controller × (Bool × D)). IsFine bus r.1)
          (open_controller (mapped bus) dbg page_at polls config d).0
        × Then
            (λ (r : Controller × (Bool × D)). IsFine bus r.1)
            (run_cmds (mapped bus) c requests d)
  unfolding open_controller
  controller_lem dbg page_at polls config c requests d h =
      (opening (pci_setup config), run_cmds-Then bus c requests d h)
    where
      opening :
          (r : Option (Result (Unit {0}) × List ℕ))
          → Then
              (λ (r : Result Controller × (Bool × D)). IsFine bus r.1)
              (elim r
                as (λ x.
                  Option (Result Controller × (Bool × D)) × Option (Result (Unit {0}) × List ℕ)) [
                    | none ↦ (none, none)
                    | some (err e, config') ↦ (some (err e, d), some (err e, config'))
                    | some (ok u, config') ↦
                        (bring_up (mapped bus) dbg page_at polls d, some (ok u, config'))
                  ]).0
      opening none = tt
      opening (some (err e, config')) = h
      opening (some (ok u, config')) = bring_up-Always dbg page_at polls d h
