-- ===== src/Prelude/Float.antt =====
-- The machine's floating-point numbers, which the program takes from the processor and its
-- mathematical library: a parameter of every definition that computes with samples or gains. No
-- law is assumed here; a theorem that needs one names it.
use audiod.Prelude.{ℕ, Bool}
use audiod.Prelude.Int.{ℤ}

pub record Floats : Type 1 where
  pub F32 : Type 0
  pub F64 : Type 0
  -- `from_bits` and `to_bits`
  pub from_bits : ℕ → F32
  pub to_bits : F32 → ℕ
  -- a decimal literal, as a numerator and the number of its decimals
  pub lit : ℕ → ℕ → F32
  pub add : F32 → F32 → F32
  pub sub : F32 → F32 → F32
  pub mul : F32 → F32 → F32
  pub div : F32 → F32 → F32
  -- `x as f32` of an integer
  pub of_int : ℤ → F32
  -- `x as usize` and `x as i16`, which round towards zero and saturate
  pub to_usize : F32 → ℕ
  pub to_i16 : F32 → ℤ
  pub round : F32 → F32
  -- `x.clamp(lo, hi)`, the value last
  pub clamp : F32 → F32 → F32 → F32
  -- `x.max(y)` and `x.min(y)`, which pass over a NaN, and `f32::EPSILON`
  pub max32 : F32 → F32 → F32
  pub min32 : F32 → F32 → F32
  pub epsilon : F32
  -- `<` and `==`, which fail at a NaN
  pub lt : F32 → F32 → Bool
  pub eq : F32 → F32 → Bool
  pub abs : F32 → F32
  pub neg : F32 → F32
  -- the same over `f64`
  pub lit64 : ℕ → ℕ → F64
  pub of_ℕ64 : ℕ → F64
  pub add64 : F64 → F64 → F64
  pub sub64 : F64 → F64 → F64
  pub mul64 : F64 → F64 → F64
  pub div64 : F64 → F64 → F64
  pub lt64 : F64 → F64 → Bool
  pub abs64 : F64 → F64
  pub sin : F64 → F64
  pub cos : F64 → F64
  pub pi : F64
  pub to_f32 : F64 → F32
  pub to_f64 : F32 → F64
  -- `x as isize`
  pub to_isize64 : F64 → ℤ
