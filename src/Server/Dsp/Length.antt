-- ===== src/Server/Dsp/Length.antt =====
-- How much the conversions make: whole frames in, whole frames out.
use audiod.Prelude.{
  ℕ, zero, suc, ◌+◌, ◌*◌, ◌/◌, ◌%◌, ◌^◌, ◌<◌, ◌≡◌, ap, inl, inr, Bool, some, List, [], ◌∷◌, arith,
  ◌==◌, Bool-cases, length,
}
use native.Mathlib.Nat.{div-add-mod', mod-lt, div-eq_of_eq-mul_left}
use audiod.Prelude.Float.{Floats}
use audiod.Common.Audio.{pcm_format_bytes}
use audiod.Server.Dsp.{fold_frames, fold_to_stereo, f32_stereo_to_s16}
use audiod.Server.Dsp.Resampler.{produce, Resampler, gcd, new}
use audiod.Server.Dsp.Stream.{IsValid}

-- `n` is a multiple of `g`.
abbrev pub Multiple : ℕ → ℕ → Type 0
Multiple g n = (k : ℕ) × (n ≡ k * g)

Multiple-mod : (g a b : ℕ) → 0 < b → Multiple g b → Multiple g (a % b) → Multiple g a
Multiple-mod g a b h (k, e) (j, e') =
    (a / b * k + j, omega (arith, div-add-mod' a b, ap (λ (t : ℕ). a / b * t) e))

gcd_multiples : (fuel a b : ℕ) → b < fuel → Multiple (gcd fuel a b) a × Multiple (gcd fuel a b) b
unfolding gcd
gcd_multiples zero a b h = absurd (omega arith)
gcd_multiples (suc fuel) a b h = elim (Bool-cases (b == 0)) [
  | inl e ↦ rw (e, gcd) ((1, omega arith), (0, ground arith))
  | inr e ↦
      let pos : 0 < b = ground arith in
      let (mb, mr) = gcd_multiples fuel b (a % b) (omega (arith, mod-lt a pos)) in
      rw (e, gcd) (Multiple-mod (gcd fuel b (a % b)) a b pos mb mr, mb)
]

gcd_pos : (fuel a b : ℕ) → 0 < a → b < fuel → 0 < gcd fuel a b
unfolding gcd
gcd_pos zero a b p h = absurd (omega arith)
gcd_pos (suc fuel) a b p h = ground (arith, gcd_pos fuel b (a % b))

factor_pos : (n k g : ℕ) → 0 < n → n ≡ k * g → 0 < k
factor_pos n zero g h e = absurd (omega arith)
factor_pos n (suc k) g h e = omega arith

ratio :
    (src dst g : ℕ)
    → 0 < g
    → 0 < src
    → 0 < dst
    → Multiple g src
    → Multiple g dst
    → (src / g * dst ≡ dst / g * src) × (0 < src / g) × (0 < dst / g)
ratio src dst g h p q (k, e) (j, e') =
    let a = div-eq_of_eq-mul_left h e in
    let b = div-eq_of_eq-mul_left h e' in
    rw (a, b) (rw (e, e') omega arith, factor_pos src k g p e, factor_pos dst j g q e')

module _ (fl : Floats) where
  open fl use {F32}

  length-fold_frames :
      (src : List ℕ) (fmt ch fsz frames i : ℕ)
      → length (fold_frames fl src fmt ch fsz frames i) ≡ frames * 2
  unfolding fold_frames
  length-fold_frames src fmt ch fsz zero i = omega arith
  length-fold_frames src fmt ch fsz (suc frames) i =
      omega (arith, length-fold_frames src fmt ch fsz frames (i + fsz))

  pub length-f32_stereo_to_s16 :
      (inp : List F32) → length (f32_stereo_to_s16 fl inp) ≡ length inp * 2
  unfolding f32_stereo_to_s16
  length-f32_stereo_to_s16 [] = omega arith
  length-f32_stereo_to_s16 (v ∷ inp) = omega (arith, length-f32_stereo_to_s16 inp)

  pub length-fold_to_stereo :
      (src : List ℕ) (fmt ch : ℕ) → length (fold_to_stereo fl src fmt ch) % 2 ≡ 0
  unfolding fold_to_stereo
  length-fold_to_stereo src fmt ch = omega (
    arith,
    length-fold_frames src fmt ch (pcm_format_bytes (fmt % 2 ^ 16) * ch)
        (length src / (pcm_format_bytes (fmt % 2 ^ 16) * ch)) 0,
  )

  pub length-produce :
      (fuel : ℕ) (r : Resampler F32) (p : ℕ) → length (produce fl fuel r p).0 % 2 ≡ 0
  unfolding produce
  length-produce zero r p = omega arith
  length-produce (suc fuel) r p = ground (arith, length-produce fuel r (p + r.step_num))

  -- A chunk becomes a stereo frame of four bytes for each whole client frame in it; what is left
  -- over at its end is dropped.
  length-pack-fold :
      (src : List ℕ) (fmt ch : ℕ)
      → length (f32_stereo_to_s16 fl (fold_to_stereo fl src fmt ch))
        ≡ length src / (pcm_format_bytes (fmt % 2 ^ 16) * ch) * 4
  unfolding fold_to_stereo
  length-pack-fold src fmt ch =
      let n = length src / (pcm_format_bytes (fmt % 2 ^ 16) * ch) in
      omega (
        arith,
        length-f32_stereo_to_s16 (fold_to_stereo fl src fmt ch),
        length-fold_frames src fmt ch (pcm_format_bytes (fmt % 2 ^ 16) * ch) n 0,
      )

  -- A new resampler moves by exactly `src / dst` of an input frame for each output frame, and is
  -- valid.
  new_ratio :
      (src dst : ℕ) (is_linear : Bool) {r : Resampler F32}
      → new fl src dst is_linear ≡ some r
      → (r.step_num * dst ≡ r.step_den * src) × IsValid F32 r
  unfolding new
  new_ratio src dst is_linear e =
      let g = gcd (suc dst) src dst in
      ground (
        arith,
        ratio src dst g,
        gcd_pos (suc dst) src dst,
        gcd_multiples (suc dst) src dst (omega arith),
      )
