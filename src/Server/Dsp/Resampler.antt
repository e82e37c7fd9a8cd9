-- ===== src/Server/Dsp/Resampler.antt =====
-- server/src/dsp.rs: the streaming resampler. Its position is exact, in `step_den`-ths of an input
-- frame; it is taken to stay below 2^64.
use audiod.Prelude.{
  ℕ, zero, suc, ◌+◌, ◌-◌, ◌*◌, ◌/◌, ◌%◌, min, max, Bool, true, false, ◌||◌, Option, none, some,
  List, [], ◌∷◌, ◌++◌, ltb, ◌==◌, if◌then◌else◌, length, get_or, drop, slice,
}
use audiod.Prelude.Int.{pos}
use audiod.Prelude.Float.{Floats}
use audiod.Server.Dsp.Kernel.{taps, phases, kernel_table}

-- `while b != 0 { (a, b) = (b, a % b) }`; more than `b` rounds are never needed.
unfoldable pub gcd : ℕ → ℕ → ℕ → ℕ
gcd zero a b = a
gcd (suc fuel) a b = elim (b == 0) [ true ↦ a | false ↦ gcd fuel b (a % b) ]

pub data Kind (F : Type 0) : Type 0 where
  sinc : List (List F) → Kind F
  linear : Kind F

-- `pos` of the source is `at` here.
pub record Resampler (F : Type 0) : Type 0 where
  pub kind : Kind F
  pub step_num : ℕ
  pub step_den : ℕ
  pub at : ℕ
  pub hist : List F
  pub off : ℕ

module _ (fl : Floats) where
  open fl use {F32, lit, add, sub, mul, div, of_int, to_usize}

  -- The configuration's name for the kind is `linear` or anything else.
  unfoldable pub new : ℕ → ℕ → Bool → Option (Resampler F32)
  unfolding gcd kernel_table
  new src dst is_linear =
      let g = gcd (suc dst) src dst in
      if (src == dst) || ((src == 0) || (dst == 0))
      then none
      else some (record {
        kind = if is_linear then linear else sinc (kernel_table fl src dst);
        step_num = src / g;
        step_den = dst / g;
        at = 0;
        hist = [];
        off = 0;
      })

  -- The two sums over one window: stereo pairs against two adjacent rows, `t` between them.
  unfoldable pub convolve : F32 → List F32 → List F32 → List F32 → F32 → F32 → F32 × F32
  convolve t (x ∷ y ∷ win) (c0 ∷ r0) (c1 ∷ r1) l r =
      let c = add c0 (mul (sub c1 c0) t) in convolve t win r0 r1 (add l (mul c x)) (add r (mul c y))
  convolve t win r0 r1 l r = (l, r)

  -- The output frame at `rem / den` past the first frame of the window.
  unfoldable pub frame_of : Kind F32 → ℕ → ℕ → List F32 → F32 × F32
  unfolding convolve
  frame_of (sinc tab) den rem win =
      let pf = mul (div (of_int (pos rem)) (of_int (pos den))) (of_int (pos phases)) in
      let p0 = min (to_usize pf) (phases - 1) in
      let p1 = (p0 + 1) % phases in
      let t = sub pf (of_int (pos p0)) in
      convolve t win (get_or tab p0 []) (get_or tab p1 []) (lit 0 0) (lit 0 0)
  frame_of linear den rem win =
      let frac = div (of_int (pos rem)) (of_int (pos den)) in
      let s = λ (i : ℕ). get_or win i (lit 0 0) in
      (add (s 0) (mul (sub (s 2) (s 0)) frac), add (s 1) (mul (sub (s 3) (s 1)) frac))

  -- One output frame of `r` at the position `p`.
  unfoldable pub frame_at : Resampler F32 → ℕ → F32 × F32
  unfolding frame_of
  frame_at r p =
      frame_of r.kind r.step_den (p % r.step_den) (slice r.hist (p / r.step_den * 2) (taps * 2))

  -- The loop of `resample` over the history of `r`: its samples, and where it stops.
  unfoldable pub produce : ℕ → Resampler F32 → ℕ → List F32 × ℕ
  produce zero r p = ([], p)
  produce (suc fuel) r p =
      let frames = length r.hist / 2 in
      elim (ltb frames (p / r.step_den + taps)) [
        | true ↦ ([], p)
        | false ↦
            let (l, s) = frame_at r p in
            let rest = produce fuel r (p + r.step_num) in (l ∷ s ∷ rest.0, rest.1)
      ]

  unfoldable pub keep_of : Kind F32 → ℕ
  keep_of (sinc tab) = taps - 1
  keep_of linear = 1

  -- The end of `resample`: count what is consumed, and erase it once it dominates the buffer.
  unfoldable pub retire : Resampler F32 → Resampler F32
  unfolding keep_of
  retire r =
      let frames = length r.hist / 2 in
      let consumed = min (r.at / r.step_den) (frames - keep_of r.kind) in
      let off = max r.off consumed in
      if ltb (length r.hist) (off * 2)
      then record r { hist = drop (off * 2) r.hist; off = 0 }
      else record r { off = off }

  -- The samples made and the new state. Each round moves the position by `step_num`, so the rounds
  -- are bounded by the positions in the history.
  unfoldable pub resample : Resampler F32 → List F32 → List F32 × Resampler F32
  unfolding retire
  resample r input =
      let fed = record r { hist = r.hist ++ input } in
      let out = produce (suc (length fed.hist * r.step_den)) fed r.at in
      (out.0, retire (record fed { at = out.1 }))
