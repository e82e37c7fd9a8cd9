-- ===== src/Hda/Controller/Sound.antt =====
-- No verb makes an assertion of the driver fail, from the opening of the controller on.
use audiod.Prelude.{
  ℕ, ◌≡◌, refl, inl, inr, Bool, true, false, Option, none, some, List, [], ◌∷◌, arith,
  if◌then◌else◌, Bool-cases,
}
use mathlib.Core.Path.{subst}
use audiod.Hda.Device.{Device, has_bits}
use audiod.Hda.Io.{Gives, Ensures, Ensures-after, attempt}
use audiod.Hda.Dbg.{CmdEngineKind, DebugOpts}
use audiod.Hda.Dbg
use audiod.Hda.Corb.{CorbRing, Result, Error, ok, err}
use audiod.Hda.Pcicfg.{vendor_device, set_snoop, set_master, read_u8, read_u16, write_u8, write_u16}
use audiod.Hda.Corb.Init
use audiod.Hda.Corb.Sound
use audiod.Hda.Corb.Sound.{send-IsSound, wait_response-IsSound, init-IsSound}
use audiod.Hda.Controller.{Controller, pio, reset_link}
use audiod.Hda.Controller.Fallback
use audiod.Hda.Controller.Fallback.{verb_raw-IsValid}
use audiod.Hda.Controller.Open.{
  await_unstuck, adopt, gcap_streams, open_controller, pci_setup, known_vendor, Request, cmd,
  run_cmds, bring_up, settle_link, init_cmd_engine, gcap_reg, intsts, int_all,
}
use audiod.Hda.Controller.Verbs.{EngineIsSound, Returns, verb_raw-Returns}

-- The changes of the slot's configuration fail no assertion.
pci_setup-Ensures : (config : List ℕ) → Ensures (λ u. Unit {0}) (pci_setup config)
unfolding pci_setup known_vendor vendor_device set_snoop set_master read_u8 read_u16 write_u8
    write_u16
pci_setup-Ensures config = ground arith

module _ (bus : Device) where
  open bus use {D}

  -- What `open` has before it chooses an engine.
  Fresh : Controller → Type 0
  Fresh c = (c.engine ≡ pio) × (c.corb_timeouts ≡ 0) × (c.pio_fallback_done ≡ false)

  -- The rings fit, and no more timeouts are counted than may be.
  abbrev pub IsReady : Controller → Type 0
  IsReady c = EngineIsSound c.engine × Fallback.IsValid c

  pio-IsReady : (c : Controller) → Fresh c → IsReady c
  unfolding Fresh
  pio-IsReady c v = rw v.0 (tt, v.1)

  -- An early return of an error.
  Gives-unless :
      (P : Controller → Type 0) (failed : Bool) (e : Error) (d : D) (more : Result Controller × D)
      → Gives P more.0
      → Gives P (if failed then (err e, d) else more).0
  Gives-unless P true e d more h = tt
  Gives-unless P false e d more h = h

  reset_link-Fresh :
      (polls : ℕ) (c : Controller) (d : D) → Fresh c → Gives Fresh (reset_link bus polls c d).0
  unfolding reset_link Fresh
  reset_link-Fresh polls c d v = search (Gives-unless)

  settle_link-Fresh :
      (skip : Bool) (polls : ℕ) (c : Controller) (d : D)
      → Fresh c
      → Ensures Fresh (settle_link bus skip polls c d)
  unfolding settle_link Fresh
  settle_link-Fresh false polls c d v =
      Ensures-after Fresh Fresh (attempt (reset_link bus polls c) d) _
        (reset_link-Fresh polls c d v) (λ r d' f. f)
  settle_link-Fresh true polls c d v =
      Ensures-after (λ (u : Unit {0}). Unit {0}) Fresh (attempt (await_unstuck bus 50) d) _
        (stuck (await_unstuck bus 50 d).0) (λ u d' t. v)
    where
      stuck : (r : Result (Unit {0})) → Gives (λ (u : Unit {0}). Unit {0}) r
      stuck (ok u) = tt
      stuck (err e) = tt

  adopt-IsReady :
      (c : Controller) (r : Option (Result CorbRing × D))
      → Fresh c
      → Ensures Sound.IsSound r
      → Ensures IsReady (adopt bus c r)
  unfolding Fresh
  adopt-IsReady c none v h = absurd h
  adopt-IsReady c (some (ok ring, d)) v h = (h, (v.2, omega (arith, v.1)))
  adopt-IsReady c (some (err e, d)) v h = rw v.0 (tt, v.1)

  init_cmd_engine-IsReady :
      (kind : Option CmdEngineKind) (page_at : ℕ → ℕ) (polls : ℕ) (c : Controller) (d : D)
      → Fresh c
      → Ensures IsReady (init_cmd_engine bus kind page_at polls c d)
  unfolding init_cmd_engine
  init_cmd_engine-IsReady (some Dbg.pio) page_at polls c d v = pio-IsReady c v
  init_cmd_engine-IsReady (some Dbg.corb) page_at polls c d v =
      adopt-IsReady c (Init.init bus page_at polls d) v (init-IsSound bus page_at polls d)
  init_cmd_engine-IsReady none page_at polls c d v =
      adopt-IsReady c (Init.init bus page_at polls d) v (init-IsSound bus page_at polls d)

  bring_up-IsReady :
      (dbg : DebugOpts) (page_at : ℕ → ℕ) (polls : ℕ) (d : D)
      → Ensures IsReady (bring_up bus dbg page_at polls d)
  unfolding bring_up Fresh
  bring_up-IsReady dbg page_at polls d =
      let (gcap, d1) = bus.read16 d gcap_reg in
      let found : Controller = record {
        codec_mask = 0;
        gcap = gcap;
        cad = 0;
        engine = pio;
        corb_timeouts = 0;
        pio_fallback_done = false;
      } in
      elim (Bool-cases (has_bits gcap gcap_streams)) [
        | inl e ↦ rw e (
            Ensures-after Fresh IsReady (settle_link bus dbg.skip_reset polls found d1) _
              (settle_link-Fresh dbg.skip_reset polls found d1 (refl, refl, refl))
              (λ c d2 v.
                init_cmd_engine-IsReady dbg.cmd_engine page_at polls c
                  (bus.write32 d2 intsts int_all) v))
        | inr e ↦ rw e tt
      ]

  -- Opening fails no assertion, and a controller that has been opened is ready.
  pub open_controller-IsReady :
      (dbg : DebugOpts) (page_at : ℕ → ℕ) (polls : ℕ) (config : List ℕ) (d : D)
      → Ensures IsReady (open_controller bus dbg page_at polls config d).0
  unfolding open_controller
  open_controller-IsReady dbg page_at polls config d =
      go (pci_setup config) refl (pci_setup-Ensures config)
    where
      go :
          (r : Option (Result (Unit {0}) × List ℕ))
          → pci_setup config ≡ r
          → Ensures (λ u. Unit {0}) r
          → Ensures IsReady (open_controller bus dbg page_at polls config d).0
      go none f h = absurd h
      go (some (err x, config')) f h = rw (f, open_controller) tt
      go (some (ok u, config')) f h = rw (f, open_controller) (bring_up-IsReady dbg page_at polls d)

  pub cmd-IsReady :
      (c : Controller) (r : Request) (d : D)
      → IsReady c
      → (c' : Controller) × (a : Result ℕ) × (d' : D) × (cmd bus c r d ≡ some (c', a, d'))
        × IsReady c'
  unfolding cmd
  cmd-IsReady c r d v =
      go (cmd bus c r d) refl
        (verb_raw-Returns bus c r.cad r.nid r.verb r.payload r.polls r.spins d v.0)
    where
      go :
          (o : Option (Controller × Result ℕ × D))
          → cmd bus c r d ≡ o
          → Returns o
          → (c' : Controller) × (a : Result ℕ) × (d' : D) × (cmd bus c r d ≡ some (c', a, d'))
            × IsReady c'
      go none e h = absurd h
      go (some (c', a, d')) e h = (
        c',
        a,
        d',
        e,
        (
          h,
          (verb_raw-IsValid bus c c' r.cad r.nid r.verb r.payload r.polls r.spins d d' a e v.1).0,
        ),
      )

  run_cmds-IsReady :
      (c : Controller) (requests : List Request) (d : D)
      → IsReady c
      → (c' : Controller) × (d' : D) × (run_cmds bus c requests d ≡ some (c', d')) × IsReady c'
  unfolding run_cmds
  run_cmds-IsReady c [] d v = (c, d, refl, v)
  run_cmds-IsReady c (r ∷ requests) d v =
      let (c1, a, d1, e, v1) = cmd-IsReady c r d v in
      let (c', d', e', v') = run_cmds-IsReady c1 requests d1 v1 in (c', d', rw (e, run_cmds) e', v')

  -- When a controller has been opened with success, on any device and with any pages, no sequence
  -- of verbs makes an assertion of the driver fail, whatever the device answers; in the end the
  -- rings still fit into their page, with at most 256 entries, and the controller is still valid.
  pub open_controller_lem :
      (dbg : DebugOpts) (page_at : ℕ → ℕ) (polls : ℕ) (config : List ℕ) (d d' : D) (c : Controller)
      (requests : List Request)
      → (open_controller bus dbg page_at polls config d).0 ≡ some (ok c, d')
      → (c' : Controller) × (d'' : D) × (run_cmds bus c requests d' ≡ some (c', d''))
        × EngineIsSound c'.engine
        × Fallback.IsValid c'
  unfolding open_controller
  open_controller_lem dbg page_at polls config d d' c requests e =
      let brought = go (pci_setup config) refl in
      let ready = subst (Ensures IsReady) brought (bring_up-IsReady dbg page_at polls d) in
      let (c', d'', e', v) = run_cmds-IsReady c requests d' ready in (c', d'', e', v.0, v.1)
    where
      go :
          (r : Option (Result (Unit {0}) × List ℕ))
          → pci_setup config ≡ r
          → bring_up bus dbg page_at polls d ≡ some (ok c, d')
      go none f = let e' = rw (f, open_controller) at e in cc
      go (some (err x, config')) f = let e' = rw (f, open_controller) at e in cc
      go (some (ok u, config')) f = rw (f, open_controller) at e
