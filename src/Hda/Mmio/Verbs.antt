-- ===== src/Hda/Mmio/Verbs.antt =====
-- The accesses of the commands to a codec, over both engines.
use audiod.Prelude.{
  ℕ, zero, suc, ◌+◌, ◌*◌, ◌%◌, refl, inl, inr, Bool, true, false, Option, none, some, List, [], ◌∷◌,
  ◌==◌, if◌then◌else◌, Bool-cases, Option-cases,
}
use audiod.Prelude.Splits.{List-cases}
use audiod.Hda.Device.{Device, has_bits}
use mathlib.Core.Path.{subst}
use audiod.Hda.Dma
use audiod.Hda.Corb.{
  CorbRing, Polls, Result, ok, err, send, shutdown, corbwp, corbrp, corbctl, rirbctl, wait_response,
  rirbwp, Poll, poll_loop, poll_once, timed_out,
}
use audiod.Hda.Controller.{
  Controller, CmdEngine, pio, corb, irs, ic, ir, irs_busy, irs_valid, await_idle, await_valid,
  pio_verb, corb_verb, settle, verb_raw, make_verb,
}
use audiod.Hda.Controller.Open.{Request, cmd, run_cmds}
use audiod.Hda.Mmio.{check, mapped}
use audiod.Hda.Mmio.Bounds.{IsFine, read_access-IsFine, write_access-IsFine}
use audiod.Hda.Mmio.Session.{Then, bind-Then}
use audiod.Prelude.Bytes.{u32_le}

module _ (bus : Device) where
  open bus use {D}

  -- The accesses to the registers of immediate commands.
  pub r_irs : (d : Bool × D) → IsFine bus d → IsFine bus (Device.read16 (mapped bus) d irs).1
  unfolding check
  r_irs d h = read_access-IsFine bus bus.read16 2 d irs h refl

  pub w_irs :
      (v : ℕ) (d : Bool × D) → IsFine bus d → IsFine bus (Device.write16 (mapped bus) d irs v)
  unfolding check
  w_irs v d h = write_access-IsFine bus bus.write16 2 d irs v h refl

  -- Of two results, with the same kind of device behind them.
  pub either :
      {A : Type 0} (test : Bool) (x y : A × (Bool × D))
      → IsFine bus x.1
      → IsFine bus y.1
      → IsFine bus (if test then x else y).1
  either true x y h k = h
  either false x y h k = k

  await_idle-IsFine :
      (spins : ℕ) (d : Bool × D) → IsFine bus d → IsFine bus (await_idle (mapped bus) spins d).1
  unfolding await_idle
  await_idle-IsFine zero d h = r_irs d h
  await_idle-IsFine (suc spins) d h =
      let next = r_irs d h in
      elim (Bool-cases (has_bits (Device.read16 (mapped bus) d irs).0 irs_busy)) [
        | inl t ↦ rw (t, await_idle) (await_idle-IsFine spins _ next)
        | inr t ↦ rw (t, await_idle) next
      ]

  await_valid-IsFine :
      (polls : ℕ) (d : Bool × D) → IsFine bus d → IsFine bus (await_valid (mapped bus) polls d).1
  unfolding await_valid check
  await_valid-IsFine zero d h = h
  await_valid-IsFine (suc polls) d h =
      let next = r_irs d h in
      elim (Bool-cases (has_bits (Device.read16 (mapped bus) d irs).0 irs_valid)) [
        | inl t ↦ rw (t, await_valid) (read_access-IsFine bus bus.read32 4 _ ir next refl)
        | inr t ↦ rw (t, await_valid) (await_valid-IsFine polls _ next)
      ]

  pio_verb-IsFine :
      (polls cmdword : ℕ) (d : Bool × D)
      → IsFine bus d
      → IsFine bus (pio_verb (mapped bus) polls cmdword d).1
  unfolding pio_verb check
  pio_verb-IsFine polls cmdword d h =
      let idle = await_idle-IsFine 50 d h in
      either _ _ _
        (await_valid-IsFine polls _ (
          w_irs _ _
            (r_irs _ (write_access-IsFine bus bus.write32 4 _ ic cmdword (w_irs _ _ idle) refl))))
        idle

  send-Then :
      (c : CorbRing) (cmdword : ℕ) (d : Bool × D)
      → IsFine bus d
      → Then (λ (r : Result CorbRing × (Bool × D)). IsFine bus r.1) (send (mapped bus) c cmdword d)
  unfolding send check
  send-Then c cmdword d h =
      let looked =
        read_access-IsFine bus bus.read16 2 _ corbrp
          (read_access-IsFine bus bus.read16 2 d corbwp h refl) refl in
      let (w, d1) = Device.read16 (mapped bus) d corbwp in
      let (r, d2) = Device.read16 (mapped bus) d1 corbrp in
      let next = (w % 256 % c.count + 1) % c.count in
      elim (Bool-cases (next == r % 256 % c.count)) [
        | inl t ↦ rw (t, send) looked
        | inr t ↦
            rw (t, send)
              (bind-Then (λ (x : Result CorbRing × (Bool × D)). IsFine bus x.1)
                (Dma.write c.rb (next * 4) (u32_le cmdword)) _
                (λ rb. write_access-IsFine bus bus.write16 2 _ corbwp _ looked refl))
      ]

  shutdown-IsFine : (d : Bool × D) → IsFine bus d → IsFine bus (shutdown (mapped bus) d)
  unfolding shutdown check
  shutdown-IsFine d h =
      write_access-IsFine bus bus.write8 1 _ rirbctl 0
        (write_access-IsFine bus bus.write8 1 d corbctl 0 h refl) refl

  abbrev Fine3 : {A B : Type 0} → A × B × (Bool × D) → Type 0
  Fine3 r = IsFine bus r.2

  -- What a wait makes of a round.
  after_round :
      (r : Option (CorbRing × Option (Result ℕ))) (d : Bool × D)
      (go : CorbRing → Option (CorbRing × Result ℕ × (Bool × D)))
      → IsFine bus d
      → ((c : CorbRing) → Then (Fine3 {A = CorbRing} {B = Result ℕ}) (go c))
      → Then
          (Fine3 {A = CorbRing} {B = Result ℕ})
          (elim r [ none ↦ none | some (c', some a) ↦ some (c', a, d) | some (c', none) ↦ go c' ])
  after_round none d go h k = tt
  after_round (some (c', some a)) d go h k = h
  after_round (some (c', none)) d go h k = k c'

  -- Each poll reads a register of two bytes.
  poll_loop-Then :
      (cad : ℕ) (c : CorbRing) (p : Poll) (polls : List Poll) (d : Bool × D)
      → IsFine bus d
      → Then (Fine3 {A = CorbRing} {B = Result ℕ}) (poll_loop (mapped bus) cad c p polls d)
  unfolding poll_loop check
  poll_loop-Then cad c p [] d h =
      let next = read_access-IsFine bus bus.read16 2 d rirbwp h refl in
      let (position, d') = Device.read16 (mapped bus) d rirbwp in
      after_round (poll_once cad c p position) d' (λ c'. some (c', err timed_out, d')) next
        (λ c'. next)
  poll_loop-Then cad c p (p' ∷ polls) d h =
      let next = read_access-IsFine bus bus.read16 2 d rirbwp h refl in
      let (position, d') = Device.read16 (mapped bus) d rirbwp in
      after_round (poll_once cad c p position) d' (λ c'. poll_loop (mapped bus) cad c' p' polls d')
        next (λ c'. poll_loop-Then cad c' p' polls d' next)

  wait_response-Then :
      (cad : ℕ) (c : CorbRing) (polls : Polls) (d : Bool × D)
      → IsFine bus d
      → Then (Fine3 {A = CorbRing} {B = Result ℕ}) (wait_response (mapped bus) cad c polls d)
  unfolding wait_response
  wait_response-Then cad c polls d h = elim (List-cases c.pending) [
    | inl e ↦ rw (e, wait_response) (poll_loop-Then cad c polls.0 polls.1 d h)
    | inr (r, rest, e) ↦ rw (e, wait_response) h
  ]

  waited :
      (ring : CorbRing) (cad : ℕ) (polls : Polls) (r : Option (Result CorbRing × (Bool × D)))
      → Then (λ (x : Result CorbRing × (Bool × D)). IsFine bus x.1) r
      → Then (Fine3 {A = CorbRing} {B = Result ℕ}) (elim r [
        | none ↦ none
        | some (err e, d') ↦ some (ring, err e, d')
        | some (ok ring', d') ↦ wait_response (mapped bus) cad ring' polls d'
      ])
  waited ring cad polls none v = tt
  waited ring cad polls (some (err e, d')) v = v
  waited ring cad polls (some (ok ring', d')) v = wait_response-Then cad ring' polls d' v

  corb_verb-Then :
      (ring : CorbRing) (cmdword cad : ℕ) (polls : Polls) (d : Bool × D)
      → IsFine bus d
      → Then (Fine3 {A = CorbRing} {B = Result ℕ}) (corb_verb (mapped bus) ring cmdword cad polls d)
  unfolding corb_verb
  corb_verb-Then ring cmdword cad polls d h = waited ring cad polls _ (send-Then ring cmdword d h)

  -- The answer of the rings, or else immediate commands behind their shutdown.
  fallen :
      (spins cmdword : ℕ) (c : Controller) (answer : Option (Result ℕ)) (d : Bool × D)
      → IsFine bus d
      → Then (Fine3 {A = Controller} {B = Result ℕ}) (elim answer [
        | some a ↦ some (c, a, d)
        | none ↦
            let (a, d2) = pio_verb (mapped bus) spins cmdword (shutdown (mapped bus) d) in
            some (c, a, d2)
      ])
  fallen spins cmdword c (some a) d h = h
  fallen spins cmdword c none d h = pio_verb-IsFine spins cmdword _ (shutdown-IsFine d h)

  settled :
      (spins cmdword : ℕ) (c : Controller) (r : Option (CorbRing × Result ℕ × (Bool × D)))
      → Then (Fine3 {A = CorbRing} {B = Result ℕ}) r
      → Then (Fine3 {A = Controller} {B = Result ℕ}) (elim r [
        | none ↦ none
        | some (ring', outcome, d1) ↦
            let (c', answer) = settle (record c { engine = corb ring' }) outcome in
            elim answer [
              | some a ↦ some (c', a, d1)
              | none ↦
                  let (a, d2) = pio_verb (mapped bus) spins cmdword (shutdown (mapped bus) d1) in
                  some (c', a, d2)
            ]
      ])
  settled spins cmdword c none v = tt
  settled spins cmdword c (some (ring', outcome, d1)) v =
      let s = settle (record c { engine = corb ring' }) outcome in fallen spins cmdword s.0 s.1 d1 v

  verb_raw-Then :
      (c : Controller) (cad nid verb payload : ℕ) (polls : Polls) (spins : ℕ) (d : Bool × D)
      → IsFine bus d
      → Then
          (Fine3 {A = Controller} {B = Result ℕ})
          (verb_raw (mapped bus) c cad nid verb payload polls spins d)
  unfolding verb_raw
  verb_raw-Then c cad nid verb payload polls spins d h = over c.engine
    where
      cmdword : ℕ
      cmdword = make_verb cad nid verb payload

      over :
          (e : CmdEngine)
          → Then (Fine3 {A = Controller} {B = Result ℕ}) (elim e [
            | pio ↦ let (answer, d') = pio_verb (mapped bus) spins cmdword d in some (c, answer, d')
            | corb ring ↦ elim (corb_verb (mapped bus) ring cmdword cad polls d) [
              | none ↦ none
              | some (ring', outcome, d1) ↦
                  let (c', answer) = settle (record c { engine = corb ring' }) outcome in
                  elim answer [
                    | some a ↦ some (c', a, d1)
                    | none ↦
                        let (a, d2) =
                          pio_verb (mapped bus) spins cmdword (shutdown (mapped bus) d1) in
                        some (c', a, d2)
                  ]
            ]
          ])
      over pio = pio_verb-IsFine spins cmdword d h
      over (corb ring) = settled spins cmdword c _ (corb_verb-Then ring cmdword cad polls d h)

  -- Verbs one after the other make no access that fails, if none has failed before.
  pub run_cmds-Then :
      (c : Controller) (requests : List Request) (d : Bool × D)
      → IsFine bus d
      → Then (λ (r : Controller × (Bool × D)). IsFine bus r.1) (run_cmds (mapped bus) c requests d)
  unfolding run_cmds cmd
  run_cmds-Then c [] d h = h
  run_cmds-Then c (r ∷ requests) d h =
      let v = verb_raw-Then c r.cad r.nid r.verb r.payload r.polls r.spins d h in
      elim (Option-cases (cmd (mapped bus) c r d)) [
        | inl e ↦ rw (e, run_cmds) tt
        | inr (x, e) ↦ rw (e, run_cmds) (run_cmds-Then x.0 requests x.2 (subst (Then Fine3) e v))
      ]
