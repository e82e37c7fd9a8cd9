-- ===== src/Hda/Mmio/Bounds.antt =====
-- The accesses of a playback session stay in the mapping.
use audiod.Prelude.{
  ℕ, zero, suc, ◌+◌, ◌*◌, ◌%◌, ◌≤◌, ◌≡◌, refl, inl, inr, Bool, true, false, arith, if◌then◌else◌,
  Bool-cases,
}
use audiod.Hda.Device.{Device, Log, has_bits, stream_reset}
use audiod.Hda.Stream
use audiod.Hda.Stream.{await_reset, srst, lpib}
use audiod.Hda.Mmio.{check, read_access, write_access, mapped}

-- Where the registers of a stream begin.
abbrev pub base : ℕ → ℕ
base i = 0x80 + 0x20 * i

module _ (bus : Device) where
  open bus use {D}

  abbrev pub IsFine : Bool × D → Type 0
  IsFine d = d.0 ≡ true

  pub read_access-IsFine :
      (read : D → ℕ → ℕ × D) (width : ℕ) (d : Bool × D) (off : ℕ)
      → IsFine d
      → check off width width ≡ true
      → IsFine (read_access read width d off).1
  unfolding read_access
  read_access-IsFine read width d off h c = rw (h, c) refl

  pub write_access-IsFine :
      (write : D → ℕ → ℕ → D) (width : ℕ) (d : Bool × D) (off v : ℕ)
      → IsFine d
      → check off width width ≡ true
      → IsFine (write_access write width d off v)
  unfolding write_access
  write_access-IsFine write width d off v h c = rw (h, c) refl

  fits4 : (i k : ℕ) → i ≤ 15 → k % 4 ≡ 0 → k ≤ 28 → check (base i + k) 4 4 ≡ true
  unfolding check
  fits4 i k h a b = ground arith

  fits2 : (i k : ℕ) → i ≤ 15 → k % 2 ≡ 0 → k ≤ 30 → check (base i + k) 2 2 ≡ true
  unfolding check
  fits2 i k h a b = ground arith

  fits1 : (i k : ℕ) → i ≤ 15 → k ≤ 31 → check (base i + k) 1 1 ≡ true
  unfolding check
  fits1 i k h b = ground arith

  intctl_fits : check 0x20 4 4 ≡ true
  unfolding check
  intctl_fits = refl

  -- The stream with a number up to 15, of whose registers these are accesses.
  module _ (i : ℕ) (small : i ≤ 15) where
    r4 :
        (k : ℕ) (d : Bool × D)
        → k % 4 ≡ 0
        → k ≤ 28
        → IsFine d
        → IsFine (Device.read32 (mapped bus) d (base i + k)).1
    r4 k d a b h = read_access-IsFine bus.read32 4 d (base i + k) h (fits4 i k small a b)

    r1 :
        (k : ℕ) (d : Bool × D)
        → k ≤ 31
        → IsFine d
        → IsFine (Device.read8 (mapped bus) d (base i + k)).1
    r1 k d b h = read_access-IsFine bus.read8 1 d (base i + k) h (fits1 i k small b)

    pub w4 :
        (k v : ℕ) (d : Bool × D)
        → k % 4 ≡ 0
        → k ≤ 28
        → IsFine d
        → IsFine (Device.write32 (mapped bus) d (base i + k) v)
    w4 k v d a b h = write_access-IsFine bus.write32 4 d (base i + k) v h (fits4 i k small a b)

    pub w2 :
        (k v : ℕ) (d : Bool × D)
        → k % 2 ≡ 0
        → k ≤ 30
        → IsFine d
        → IsFine (Device.write16 (mapped bus) d (base i + k) v)
    w2 k v d a b h = write_access-IsFine bus.write16 2 d (base i + k) v h (fits2 i k small a b)

    w1 :
        (k v : ℕ) (d : Bool × D)
        → k ≤ 31
        → IsFine d
        → IsFine (Device.write8 (mapped bus) d (base i + k) v)
    w1 k v d b h = write_access-IsFine bus.write8 1 d (base i + k) v h (fits1 i k small b)

    -- The next look, or the end, whichever bit was seen and whichever is waited for.
    settled :
        (seen wanted : Bool) (d d' : Bool × D)
        → IsFine d
        → IsFine d'
        → IsFine (elim seen [ true ↦ if wanted then d else d' | false ↦ if wanted then d' else d ])
    settled true true d d' h h' = h
    settled true false d d' h h' = h'
    settled false true d d' h h' = h'
    settled false false d d' h h' = h

    await_reset-IsFine :
        (wanted : Bool) (n : ℕ) (d : Bool × D)
        → IsFine d
        → IsFine (await_reset (mapped bus) (base i) wanted n d)
    unfolding await_reset
    await_reset-IsFine wanted zero d h = h
    await_reset-IsFine wanted (suc n) d h =
        let next = r4 0 d refl (omega arith) h in
        settled (has_bits (Device.read32 (mapped bus) d (base i + 0)).0 stream_reset) wanted _ _
          next (await_reset-IsFine wanted n _ next)

    pub srst-IsFine : (d : Bool × D) → IsFine d → IsFine (srst (mapped bus) (base i) d)
    unfolding srst
    srst-IsFine d h = await_reset-IsFine false 100 _ (
        w4 0 0 _ refl (omega arith)
          (await_reset-IsFine true 100 _ (w4 0 stream_reset _ refl (omega arith) h)))

    pub status-IsFine : (d : Bool × D) → IsFine d → IsFine (Stream.status (mapped bus) (base i) d).1
    unfolding Stream.status
    status-IsFine d h = r1 3 d (omega arith) h

    log_start-IsFine :
        (log : Log) (d : Bool × D)
        → IsFine d
        → IsFine (Stream.log_start (mapped bus) log (base i) d)
    unfolding Stream.log_start
    log_start-IsFine log d h = elim (Bool-cases log.info) [
      | inl e ↦
          rw (e, Stream.log_start)
            (r4 4 _ refl (omega arith) (r1 3 _ (omega arith) (r4 0 d refl (omega arith) h)))
      | inr e ↦ rw (e, Stream.log_start) h
    ]

    pub start-IsFine :
        (log : Log) (sd_index : ℕ) (d : Bool × D)
        → IsFine d
        → IsFine (Stream.start (mapped bus) log (base i) sd_index d)
    unfolding Stream.start
    start-IsFine log sd_index d h = log_start-IsFine log _ (
        w1 0 _ _ (omega arith) (
          r1 0 _ (omega arith) (
            w4 0 _ _ refl (omega arith) (
              r4 0 _ refl (omega arith) (
                write_access-IsFine bus.write32 4 _ 0x20 _
                  (read_access-IsFine bus.read32 4 d 0x20 h intctl_fits) intctl_fits)))))

    pub stop-IsFine :
        (sd_index : ℕ) (d : Bool × D)
        → IsFine d
        → IsFine (Stream.stop (mapped bus) (base i) sd_index d)
    unfolding Stream.stop
    stop-IsFine sd_index d h =
        write_access-IsFine bus.write32 4 _ 0x20 _
          (read_access-IsFine bus.read32 4 _ 0x20
            (w1 3 _ _ (omega arith) (w4 0 _ _ refl (omega arith) (r4 0 d refl (omega arith) h)))
            intctl_fits)
          intctl_fits

    pub lpib-IsFine : (d : Bool × D) → IsFine d → IsFine (lpib (mapped bus) (base i) d).1
    unfolding lpib
    lpib-IsFine d h = r4 4 d refl (omega arith) h
