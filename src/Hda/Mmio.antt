-- ===== src/Hda/Mmio.antt =====
-- hda/src/mmio.rs: the mapping of the controller's registers, as a device that checks its accesses.
-- Its state says whether no access has failed its assertions, on which the source panics; behind a
-- failure the registers stay as they are.
pub mod Bounds
pub mod Session
pub mod Verbs
pub mod Waits
pub mod Opened
use audiod.Prelude.{
  ℕ, zero, suc, ◌+◌, ◌-◌, ◌*◌, ◌/◌, ◌%◌, ◌^◌, ◌≤◌, ◌<◌, min, max, ◌≡◌, refl, sym, ap, ap₂, ◌∙◌, ◌≢◌,
  ◌↔◌, ◌⊎◌, inl, inr, Bool, true, false, not, ◌&&◌, ◌||◌, Option, none, some, List, [], ◌∷◌, ◌++◌,
  map, arith, ltb, leb, ◌==◌, if◌then◌else◌, ltb→lt, lt→ltb, ==_iff, Bool-cases, Option-cases,
  length, get_or, take, drop, replicate, slice, blit, tabulate, length-append, length-replicate,
  length-take, length-drop, take-append-drop, length-blit, length-tabulate, get_or-blit_in,
  get_or-blit_out, tabulate_ext, tabulate_self, tabulate-add, tabulate-slice, get_or-take,
  get_or-drop, concat, take-nil, drop-nil, take-tabulate, drop-tabulate, bit_and, bit_or, ◌>>=◌,
}
use audiod.Hda.Device.{Device}

abbrev pub mmio_len : ℕ
mmio_len = 16 * 1024

-- `check`, where the access is as wide as its alignment.
unfoldable pub check : ℕ → ℕ → ℕ → Bool
check off size width = (off % width == 0) && leb (off + size) mmio_len

unfoldable pub read_access : {D : Type 0} → (D → ℕ → ℕ × D) → ℕ → Bool × D → ℕ → ℕ × (Bool × D)
unfolding check
read_access read width d off =
    let (v, d') = read d.1 off in
    if d.0 && check off width width then (v, (true, d')) else (0, (false, d.1))

unfoldable pub write_access : {D : Type 0} → (D → ℕ → ℕ → D) → ℕ → Bool × D → ℕ → ℕ → Bool × D
unfolding check
write_access write width d off v =
    if d.0 && check off width width then (true, write d.1 off v) else (false, d.1)

-- The accesses of `Mmio` over a device.
abbrev pub mapped : Device → Device
mapped bus = record {
  D = Bool × Device.D bus;
  read8 = read_access (Device.read8 bus) 1;
  read16 = read_access (Device.read16 bus) 2;
  read32 = read_access (Device.read32 bus) 4;
  write8 = write_access (Device.write8 bus) 1;
  write16 = write_access (Device.write16 bus) 2;
  write32 = write_access (Device.write32 bus) 4;
}
