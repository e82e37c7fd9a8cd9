-- ===== src/Server/Dsp/Stream.antt =====
-- Feeding the resampler in pieces: the samples and the state are those of one call.
use native.Mathlib.Nat.{div-lt_iff_lt-mul}
use audiod.Prelude.{
  ℕ, zero, suc, ◌+◌, ◌*◌, ◌/◌, ◌≤◌, ◌<◌, ◌≡◌, refl, sym, ap, ap₂, ◌∙◌, inl, inr, Bool, true, false,
  List, [], ◌∷◌, ◌++◌, arith, ltb, Bool-cases, length, slice, length-append,
}
use audiod.Prelude.Float.{Floats}
use audiod.Server.Dsp.Kernel.{taps}
use audiod.Server.Dsp.Resampler.{Resampler, frame_at, produce}

-- A state between two calls: the consumed prefix lies in the history.
pub record IsValid (F : Type 0) (r : Resampler F) : Type 0 where
  pub num_pos : 0 < r.step_num
  pub den_pos : 0 < r.step_den
  pub kept : r.off * 2 ≤ length r.hist

-- A position at which the loop goes on lies below the history's end.
goes_on : (p d n : ℕ) → 0 < d → ltb n (p / d + taps) ≡ false → p < n * d
goes_on p d n h e = (div-lt_iff_lt-mul {x = p} {y = n} h).0 (ground arith)

pub slice-append {ℓ} :
    {A : Type ℓ} (xs ys : List A) (i n : ℕ)
    → i + n ≤ length xs
    → slice (xs ++ ys) i n ≡ slice xs i n
slice-append [] ys i zero h = refl
slice-append [] ys i (suc n) h = absurd (omega arith)
slice-append (x ∷ xs) ys zero zero h = refl
slice-append (x ∷ xs) ys zero (suc n) h = ap (◌∷◌ x) (slice-append xs ys zero n (omega arith))
slice-append (x ∷ xs) ys (suc i) n h = slice-append xs ys i n (omega arith)

module _ (fl : Floats) where
  open fl use {F32}

  -- Whether the loop ends at a position.
  abbrev pub stops : Resampler F32 → ℕ → Bool
  stops r p = ltb (length r.hist / 2) (p / r.step_den + taps)

  produce_stop : (f : ℕ) (r : Resampler F32) (p : ℕ) → stops r p ≡ true → produce fl f r p ≡ ([], p)
  unfolding produce
  produce_stop zero r p e = refl
  produce_stop (suc f) r p e = rw (e, produce)

  -- What a round that goes on adds to the later ones.
  abbrev pub then_rest : F32 × F32 → List F32 × ℕ → List F32 × ℕ
  then_rest frame rest = (frame.0 ∷ frame.1 ∷ rest.0, rest.1)

  produce_go :
      (f : ℕ) (r : Resampler F32) (p : ℕ)
      → stops r p ≡ false
      → produce fl (suc f) r p ≡ then_rest (frame_at fl r p) (produce fl f r (p + r.step_num))
  unfolding produce
  produce_go f r p e = rw (e, produce)

  -- Enough fuel: a unit for each position that the history still has.
  abbrev pub Enough : ℕ → Resampler F32 → ℕ → Type 0
  Enough f r p = (0 < r.step_num) × (0 < r.step_den) × (length r.hist / 2 * r.step_den < f + p)

  not_zero-Enough : (r : Resampler F32) (p : ℕ) → Enough 0 r p → stops r p ≡ true
  not_zero-Enough r p h = elim (Bool-cases (stops r p)) [
    | inl e ↦ e
    | inr e ↦ absurd (omega (arith, goes_on p r.step_den (length r.hist / 2) h.1 e))
  ]

  -- With enough fuel, how much there is does not show.
  produce_fuel :
      (f g : ℕ) (r : Resampler F32) (p : ℕ)
      → Enough f r p
      → Enough g r p
      → produce fl f r p ≡ produce fl g r p
  produce_fuel zero g r p h k =
      let e = not_zero-Enough r p h in produce_stop zero r p e ∙ sym (produce_stop g r p e)
  produce_fuel (suc f) zero r p h k =
      let e = not_zero-Enough r p k in produce_stop (suc f) r p e ∙ sym (produce_stop zero r p e)
  produce_fuel (suc f) (suc g) r p h k = elim (Bool-cases (stops r p)) [
    | inl e ↦ produce_stop (suc f) r p e ∙ sym (produce_stop (suc g) r p e)
    | inr e ↦
        produce_go f r p e
        ∙ ap (then_rest (frame_at fl r p))
            (produce_fuel f g r (p + r.step_num) (omega arith) (omega arith))
        ∙ sym (produce_go g r p e)
  ]

  -- More history after it does not change a frame that the history already covers.
  frame_at-append :
      (r : Resampler F32) (more : List F32) (p : ℕ)
      → ltb (length r.hist / 2) (p / r.step_den + taps) ≡ false
      → frame_at fl (record r { hist = r.hist ++ more }) p ≡ frame_at fl r p
  unfolding frame_at
  frame_at-append r more p h =
      rw (slice-append r.hist more (p / r.step_den * 2) (taps * 2) (ground arith))

  -- The same state over a longer history.
  abbrev pub longer : Resampler F32 → List F32 → Resampler F32
  longer r more = record r { hist = r.hist ++ more }

  stops-longer :
      (r : Resampler F32) (more : List F32) (p : ℕ)
      → stops r p ≡ false
      → stops (longer r more) p ≡ false
  stops-longer r more p e = ground (arith, length-append r.hist more)

  -- What the loop over a longer history does, when the one over the shorter history stops at once.
  split_stop :
      (f g h : ℕ) (r : Resampler F32) (more : List F32) (p : ℕ)
      → stops r p ≡ true
      → Enough g (longer r more) p
      → Enough h (longer r more) (produce fl f r p).1
      → produce fl g (longer r more) p ≡ (
        (produce fl f r p).0 ++ (produce fl h (longer r more) (produce fl f r p).1).0,
        (produce fl h (longer r more) (produce fl f r p).1).1,
      )
  split_stop f g h r more p e b c =
      let c' = rw (produce_stop f r p e) at c in
      rw (produce_stop f r p e) (produce_fuel g h (longer r more) p b c')

  -- The loop over the longer history is the loop over the shorter one, and then on from there.
  pub produce_split :
      (f g h : ℕ) (r : Resampler F32) (more : List F32) (p : ℕ)
      → Enough f r p
      → Enough g (longer r more) p
      → Enough h (longer r more) (produce fl f r p).1
      → produce fl g (longer r more) p ≡ (
        (produce fl f r p).0 ++ (produce fl h (longer r more) (produce fl f r p).1).0,
        (produce fl h (longer r more) (produce fl f r p).1).1,
      )
  produce_split zero g h r more p a b c = split_stop zero g h r more p (not_zero-Enough r p a) b c
  produce_split (suc f) zero h r more p a b c = elim (Bool-cases (stops r p)) [
    | inl e ↦ split_stop (suc f) zero h r more p e b c
    | inr e ↦ absurd (ground (arith, stops-longer r more p e, not_zero-Enough (longer r more) p b))
  ]
  produce_split (suc f) (suc g) h r more p a b c = elim (Bool-cases (stops r p)) [
    | inl e ↦ split_stop (suc f) (suc g) h r more p e b c
    | inr e ↦
        let c' = rw (produce_go f r p e) at c in
        rw (produce_go f r p e) (
          produce_go g (longer r more) p (stops-longer r more p e)
          ∙ ap₂ then_rest (frame_at-append r more p e)
              (produce_split f g h r more (p + r.step_num) (omega arith) (omega arith) c'))
  ]

  -- The loop never goes back, and stops where the history ends.
  pub produce_end :
      (f : ℕ) (r : Resampler F32) (p : ℕ)
      → Enough f r p
      → (p ≤ (produce fl f r p).1) × (stops r (produce fl f r p).1 ≡ true)
  produce_end zero r p h =
      let e = not_zero-Enough r p h in rw (produce_stop zero r p e) (omega arith, e)
  produce_end (suc f) r p h = elim (Bool-cases (stops r p)) [
    | inl e ↦ rw (produce_stop (suc f) r p e) (omega arith, e)
    | inr e ↦
        let ih = produce_end f r (p + r.step_num) (omega arith) in
        rw (produce_go f r p e) (omega (arith, ih.0), ih.1)
  ]

  produce_zero :
      (r : Resampler F32) (x y p : ℕ)
      → produce fl 0 (record r { at = x; off = y }) p ≡ produce fl 0 r p
  unfolding produce
  produce_zero r x y p = refl

  -- The loop reads neither the state's own position nor its prefix.
  pub produce_frame :
      (f : ℕ) (r : Resampler F32) (x y p : ℕ)
      → produce fl f (record r { at = x; off = y }) p ≡ produce fl f r p
  unfolding frame_at
  produce_frame zero r x y p = produce_zero r x y p
  produce_frame (suc f) r x y p = elim (Bool-cases (stops r p)) [
    | inl e ↦
        produce_stop (suc f) (record r { at = x; off = y }) p e ∙ sym (produce_stop (suc f) r p e)
    | inr e ↦
        produce_go f (record r { at = x; off = y }) p e
        ∙ ap (then_rest (frame_at fl r p)) (produce_frame f r x y (p + r.step_num))
        ∙ sym (produce_go f r p e)
  ]

  -- The fuel that `resample` gives is enough.
  pub resample-Enough :
      (r : Resampler F32) (p : ℕ)
      → 0 < r.step_num
      → 0 < r.step_den
      → Enough (suc (length r.hist * r.step_den)) r p
  resample-Enough r p a b = (
    a,
    b,
    let h : length r.hist / 2 * r.step_den ≤ length r.hist * r.step_den = grind arith in
        omega arith,
  )
