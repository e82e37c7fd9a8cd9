-- ===== src/Hda/Mmio/Waits.antt =====
-- The accesses of the waits and of the sizing in the start of a controller.
use audiod.Prelude.{
  ℕ, zero, suc, ◌≡◌, refl, inl, inr, Bool, true, false, not, List, [], ◌∷◌, ◌==◌, if◌then◌else◌,
  Bool-cases, bit_and, bit_or,
}
use audiod.Hda.Device.{Device, has_bits, clear_bits}
use audiod.Hda.Corb.{Result, ok, err, timed_out, choices, try_sizes, program_size}
use audiod.Hda.Corb.Init.{wait_bit}
use audiod.Hda.Controller.{
  Controller, irs, irs_busy, irs_valid, gctl, statests, await_link, reset_link,
}
use audiod.Hda.Controller.Open.{await_unstuck}
use audiod.Hda.Mmio.{check, mapped}
use audiod.Hda.Mmio.Bounds.{IsFine, read_access-IsFine, write_access-IsFine}
use audiod.Hda.Mmio.Verbs.{either, r_irs, w_irs}

module _ (bus : Device) where
  open bus use {D}

  either_state :
      (test : Bool) (x y : Bool × D)
      → IsFine bus x
      → IsFine bus y
      → IsFine bus (if test then x else y)
  either_state true x y h k = h
  either_state false x y h k = k

  await_link-IsFine :
      (up : Bool) (polls : ℕ) (d : Bool × D)
      → IsFine bus d
      → IsFine bus (await_link (mapped bus) up polls d).1
  unfolding await_link check
  await_link-IsFine up zero d h = h
  await_link-IsFine up (suc polls) d h =
      let next = read_access-IsFine bus bus.read32 4 d gctl h refl in
      elim (Bool-cases (has_bits (Device.read32 (mapped bus) d gctl).0 1)) [
        | inl t ↦ rw (t, await_link) (either bus up _ _ next (await_link-IsFine up polls _ next))
        | inr t ↦ rw (t, await_link) (either bus up _ _ (await_link-IsFine up polls _ next) next)
      ]

  pub reset_link-IsFine :
      (polls : ℕ) (c : Controller) (d : Bool × D)
      → IsFine bus d
      → IsFine bus (reset_link (mapped bus) polls c d).1
  unfolding reset_link check
  reset_link-IsFine polls c d h =
      let m = mapped bus in
      let (g0, d0) = Device.read32 m d gctl in
      let set = Device.write16 m d0 statests 0x000f in
      let d1 = if has_bits g0 1 then set else d0 in
      let (g1, d2) = Device.read32 m d1 gctl in
      let down = Device.write32 m d2 gctl (clear_bits g1 1) in
      let d3 = (await_link m false polls down).1 in
      let (g2, d4) = Device.read32 m d3 gctl in
      let raised = Device.write32 m d4 gctl (bit_or g2 1) in
      let d5 = (await_link m true polls raised).1 in
      let f0 = read_access-IsFine bus bus.read32 4 d gctl h refl in
      let f1 =
        either_state (has_bits g0 1) set d0
          (write_access-IsFine bus bus.write16 2 d0 statests 0x000f f0 refl) f0 in
      let f2 = read_access-IsFine bus bus.read32 4 d1 gctl f1 refl in
      let f3 =
        await_link-IsFine false polls down
          (write_access-IsFine bus bus.write32 4 d2 gctl (clear_bits g1 1) f2 refl) in
      let f4 = read_access-IsFine bus bus.read32 4 d3 gctl f3 refl in
      let f5 =
        await_link-IsFine true polls raised
          (write_access-IsFine bus bus.write32 4 d4 gctl (bit_or g2 1) f4 refl) in
      let f6 = read_access-IsFine bus bus.read16 2 d5 statests f5 refl in
      let (mask, d6) = Device.read16 m d5 statests in
      let low = not (await_link m true polls raised).0 in
      let late : Result Controller × (Bool × D) = (err timed_out, d5) in
      let reset : Result Controller × (Bool × D) = (ok (record c { codec_mask = mask }), d6) in
      either bus (not (await_link m false polls down).0) (err timed_out, d3)
        (if low then late else reset) f3 (either bus low late reset f5 f6)

  pub await_unstuck-IsFine :
      (spins : ℕ) (d : Bool × D) → IsFine bus d → IsFine bus (await_unstuck (mapped bus) spins d).1
  unfolding await_unstuck
  await_unstuck-IsFine zero d h = r_irs bus d h
  await_unstuck-IsFine (suc spins) d h =
      let next = r_irs bus d h in
      elim (Bool-cases (has_bits (Device.read16 (mapped bus) d irs).0 irs_busy)) [
        | inl t ↦ rw (t, await_unstuck) (await_unstuck-IsFine spins _ (w_irs bus irs_valid _ next))
        | inr t ↦ rw (t, await_unstuck) next
      ]

  try_sizes-IsFine :
      (reg caps : ℕ) (sizes : List (ℕ × ℕ × ℕ)) (d : Bool × D)
      → check reg 1 1 ≡ true
      → IsFine bus d
      → IsFine bus (try_sizes (mapped bus) reg caps sizes d).1
  unfolding try_sizes
  try_sizes-IsFine reg caps [] d q h = h
  try_sizes-IsFine reg caps ((cap, enc, n) ∷ more) d q h =
      let next =
        read_access-IsFine bus bus.read8 1 _ reg
          (write_access-IsFine bus bus.write8 1 d reg enc h q) q in
      let back = (Device.read8 (mapped bus) (Device.write8 (mapped bus) d reg enc) reg).0 in
      elim (Bool-cases (has_bits caps cap)) [
        | inr t ↦ rw (t, try_sizes) (try_sizes-IsFine reg caps more d q h)
        | inl t ↦ elim (Bool-cases (bit_and back 3 == enc)) [
          | inl u ↦ rw (t, u, try_sizes) next
          | inr u ↦ rw (t, u, try_sizes) (try_sizes-IsFine reg caps more _ q next)
        ]
      ]

  pub program_size-IsFine :
      (reg : ℕ) (d : Bool × D)
      → check reg 1 1 ≡ true
      → IsFine bus d
      → IsFine bus (program_size (mapped bus) reg d).1
  unfolding program_size
  program_size-IsFine reg d q h =
      let (caps, d') = Device.read8 (mapped bus) d reg in
      try_sizes-IsFine reg caps choices d' q (read_access-IsFine bus bus.read8 1 d reg h q)

  pub wait_bit-IsFine :
      (off bit polls : ℕ) (d : Bool × D)
      → check off 2 2 ≡ true
      → IsFine bus d
      → IsFine bus (wait_bit (mapped bus) off bit polls d).1
  unfolding wait_bit
  wait_bit-IsFine off bit zero d q h = read_access-IsFine bus bus.read16 2 d off h q
  wait_bit-IsFine off bit (suc polls) d q h =
      let next = read_access-IsFine bus bus.read16 2 d off h q in
      elim (Bool-cases (has_bits (Device.read16 (mapped bus) d off).0 bit)) [
        | inl t ↦ rw (t, wait_bit) next
        | inr t ↦ rw (t, wait_bit) (wait_bit-IsFine off bit polls _ q next)
      ]
