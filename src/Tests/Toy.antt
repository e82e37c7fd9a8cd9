-- ===== src/Tests/Toy.antt =====
-- Whole numbers in the place of the machine's floating-point numbers.
use audiod.Prelude.{ℕ, ◌+◌, ◌-◌, ◌*◌, ◌/◌, min, max, ltb, ◌==◌}
use audiod.Prelude.Int.{pos, pos_part}
use audiod.Prelude.Float.{Floats}

abbrev pub toy_floats : Floats
toy_floats = record {
  F32 = ℕ;
  F64 = ℕ;
  from_bits = λ x. x;
  to_bits = λ x. x;
  lit = λ n d. n;
  add = λ x y. x + y;
  sub = λ x y. x - y;
  mul = λ x y. x * y;
  div = λ x y. x / y;
  of_int = pos_part;
  to_usize = λ x. x;
  to_i16 = pos;
  round = λ x. x;
  clamp = λ lo hi x. min (max lo x) hi;
  max32 = λ x y. max x y;
  min32 = λ x y. min x y;
  epsilon = 1;
  lt = ltb;
  eq = λ x y. x == y;
  abs = λ x. x;
  neg = λ x. x;
  lit64 = λ n d. n;
  of_ℕ64 = λ x. x;
  add64 = λ x y. x + y;
  sub64 = λ x y. x - y;
  mul64 = λ x y. x * y;
  div64 = λ x y. x / y;
  lt64 = ltb;
  abs64 = λ x. x;
  sin = λ x. x;
  cos = λ x. x;
  pi = 3;
  to_f32 = λ x. x;
  to_f64 = λ x. x;
  to_isize64 = pos;
}
