-- ===== src/Server/Dsp/Kernel.antt =====
-- server/src/dsp.rs: the windowed-sinc table, `phases` rows of `taps` coefficients.
use audiod.Prelude.{ℕ, List, [], ◌∷◌, map, if◌then◌else◌, tabulate}
use audiod.Prelude.Float.{Floats}

abbrev pub taps : ℕ
taps = 48

abbrev pub phases : ℕ
phases = 256

module _ (fl : Floats) where
  open fl use {
    F32, F64, lit64, of_ℕ64, add64, sub64, mul64, div64, lt64, abs64, sin, cos, pi, to_f32, to_f64,
  }

  -- `0.475 * ratio.min(1.0)`
  unfoldable pub cutoff : ℕ → ℕ → F64
  cutoff src dst =
      let ratio = div64 (of_ℕ64 dst) (of_ℕ64 src) in
      mul64 (lit64 475 3) (if lt64 ratio (lit64 1 0) then ratio else lit64 1 0)

  -- Tap `i` of the row for the fractional delay `off`, before the row is normalized.
  unfoldable pub tap_weight : F64 → F64 → ℕ → F64
  tap_weight fc off i =
      let center = div64 (sub64 (of_ℕ64 taps) (lit64 1 0)) (lit64 2 0) in
      let t = sub64 (sub64 (of_ℕ64 i) center) off in
      let x = mul64 (mul64 (mul64 (lit64 2 0) pi) fc) t in
      let s = if lt64 (abs64 x) (lit64 1 12) then mul64 (lit64 2 0) fc else div64 (sin x) x in
      let n = sub64 (of_ℕ64 i) off in
      let ph = div64 (mul64 (mul64 (lit64 2 0) pi) n) (sub64 (of_ℕ64 taps) (lit64 1 0)) in
      let w =
        add64 (sub64 (lit64 42 2) (mul64 (lit64 5 1) (cos ph)))
          (mul64 (lit64 8 2) (cos (mul64 (lit64 2 0) ph))) in
      mul64 s w

  unfoldable pub sum_from : F64 → List F64 → F64
  sum_from acc [] = acc
  sum_from acc (v ∷ vs) = sum_from (add64 acc v) vs

  -- The coefficients are rounded before they are divided by the sum of the unrounded ones.
  unfoldable pub kernel_row : F64 → ℕ → List F32
  unfolding tap_weight sum_from
  kernel_row fc p =
      let row = tabulate taps (tap_weight fc (div64 (of_ℕ64 p) (of_ℕ64 phases))) in
      let sum = sum_from (lit64 0 0) row in
      if lt64 (lit64 1 12) (abs64 sum)
      then map (λ v. to_f32 (div64 (to_f64 (to_f32 v)) sum)) row
      else map to_f32 row

  -- `KernelTable::new`, a list of its rows.
  unfoldable pub kernel_table : ℕ → ℕ → List (List F32)
  unfolding cutoff kernel_row
  kernel_table src dst = tabulate phases (kernel_row (cutoff src dst))
