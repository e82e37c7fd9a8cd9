-- ===== src/Hda/Mmio/Session.antt =====
-- The accesses of a whole playback session.
use audiod.Prelude.{
  ℕ, ◌+◌, ◌%◌, ◌^◌, ◌≤◌, refl, inl, inr, Bool, true, ◌&&◌, Option, none, some, List, arith, ltb,
  Bool-cases, ◌>>=◌,
}
use audiod.Prelude.Bits.{bit_and_le}
use audiod.Hda.Device.{Device, Log}
use audiod.Hda.Dma
use audiod.Hda.Stream
use audiod.Hda.Stream.{Stream, setup, ring_pages}
use audiod.Hda.Controller.{Controller, sd_index, sd0_base, sd0_tag}
use audiod.Hda.Playback.{HdaPlayback, start, log_play, play, delay_frames, drop_all, stop}
use audiod.Hda.Mmio.{mapped}
use audiod.Hda.Mmio.Bounds.{
  IsFine, status-IsFine, base, w4, w2, srst-IsFine, start-IsFine, stop-IsFine, lpib-IsFine,
}

-- If there is a result, then it is as `P` says.
abbrev pub Then : {A : Type 0} → (A → Type 0) → Option A → Type 0
Then P none = Unit {0}
Then P (some a) = P a

Then-bind :
    {A B : Type 0} (P : A → Type 0) (Q : B → Type 0) (o : Option A) (f : A → Option B)
    → Then P o
    → ((a : A) → P a → Then Q (f a))
    → Then Q (o >>= f)
Then-bind P Q none f h k = tt
Then-bind P Q (some a) f h k = k a h

pub bind-Then :
    {A B : Type 0} (Q : B → Type 0) (o : Option A) (f : A → Option B)
    → ((a : A) → Then Q (f a))
    → Then Q (o >>= f)
bind-Then Q none f k = tt
bind-Then Q (some a) f k = k a

module _ (bus : Device) where
  open bus use {D}

  -- What a call leaves of the device is fine.
  abbrev pub LeftFine : {A : Type 0} → A × (Bool × D) → Type 0
  LeftFine r = IsFine bus r.1

  setup-IsFine :
      (i tag rate : ℕ) (s : Stream) (d : Bool × D)
      → i ≤ 15
      → IsFine bus d
      → Then (LeftFine {A = Stream}) (setup (mapped bus) (base i) tag rate s d)
  unfolding setup
  setup-IsFine i tag rate s d small h =
      bind-Then LeftFine (Dma.fill s.bdl s.ring ring_pages true) _ (λ filled.
        bind-Then LeftFine (Dma.toaddr filled.1 0) _ (λ pa.
          w4 bus i small 0 _ _ refl (omega arith) (
            w4 bus i small 0x1c _ _ refl (omega arith) (
              w4 bus i small 0x18 _ _ refl (omega arith) (
                w2 bus i small 0x0c _ _ refl (omega arith) (
                  w2 bus i small 0x12 _ _ refl (omega arith) (
                    w4 bus i small 0x08 _ _ refl (omega arith)
                      (w4 bus i small 0 _ d refl (omega arith) h))))))))

  index_small : (c : Controller) → sd_index c ≤ 15
  unfolding sd_index
  index_small c = bit_and_le _ 15

  start-Then :
      (log : Log) (p : HdaPlayback) (d : Bool × D)
      → IsFine bus d
      → Then (LeftFine {A = HdaPlayback}) (start (mapped bus) log p d)
  unfolding start sd0_base
  start-Then log p d h =
      let i = sd_index p.controller in
      let small = index_small p.controller in
      elim (Bool-cases p.running) [
        | inl t ↦ rw t h
        | inr t ↦ rw t (
            Then-bind (LeftFine {A = Stream}) (LeftFine {A = HdaPlayback}) _ _
              (setup-IsFine i (sd0_tag p.controller) p.rate p.stream _ small
                (srst-IsFine bus i small d h))
              (λ armed v. start-IsFine bus i small log i armed.1 v))
      ]

  log_play-IsFine :
      (log : Log) (p : HdaPlayback) (d : Bool × D)
      → IsFine bus d
      → IsFine bus (log_play (mapped bus) log p d)
  unfolding log_play sd0_base
  log_play-IsFine log p d h =
      let i = sd_index p.controller in
      let small = index_small p.controller in
      let three =
        lpib-IsFine bus i small _ (lpib-IsFine bus i small _ (lpib-IsFine bus i small d h)) in
      elim (Bool-cases (log.debug && ltb (p.bytes_written % 32768) 4)) [
        | inl e ↦ rw (e, log_play) (status-IsFine bus i small _ three)
        | inr e ↦ rw (e, log_play) h
      ]

  -- Over the mapping of the registers, on any device, whatever its capabilities say and whatever
  -- is logged, starting, playing, asking for the delay, dropping and stopping make no access that
  -- is misaligned or out of bounds, if none has been made before.
  pub session_lem :
      (log : Log) (p : HdaPlayback) (samples : List ℕ) (d : Bool × D)
      → IsFine bus d
      → Then (LeftFine {A = HdaPlayback}) (start (mapped bus) log p d)
        × Then
            (λ (r : ℕ × HdaPlayback × (Bool × D)). IsFine bus r.2)
            (play (mapped bus) log p samples d)
        × IsFine bus (delay_frames (mapped bus) p d).1
        × IsFine bus (drop_all (mapped bus) p d).1
        × IsFine bus (stop (mapped bus) p d).1
  unfolding play delay_frames drop_all stop sd0_base Stream.write
  session_lem log p samples d h =
      let i = sd_index p.controller in
      let small = index_small p.controller in
      (
        start-Then log p d h,
        Then-bind (LeftFine {A = HdaPlayback}) _ (start (mapped bus) log p d) _
            (start-Then log p d h)
            (λ r v.
              let base = sd0_base r.0.controller in
              bind-Then (λ (x : ℕ × HdaPlayback × (Bool × D)). IsFine bus x.2)
                (Stream.write (mapped bus) base r.0.stream samples r.1).0 _
                (λ taken.
                  log_play-IsFine log
                    (record r.0 {
                      stream = taken.1;
                      bytes_written = (r.0.bytes_written + taken.0) % 2 ^ 64;
                    })
                    _
                    (lpib-IsFine bus (sd_index r.0.controller) (index_small r.0.controller) r.1
                      v))),
        lpib-IsFine bus i small d h,
        srst-IsFine bus i small _ (stop-IsFine bus i small i d h),
        stop-IsFine bus i small i d h,
      )
