-- ===== src/Common/Ring/Inv.antt =====
-- The representation invariant of `AudioRingBuffer`, and the operations that keep it.
use audiod.Prelude.{
  ℕ, zero, suc, ◌+◌, ◌-◌, ◌*◌, ◌≤◌, ◌<◌, ◌≡◌, List, arith, length, blit, slice, drop, length-blit,
  length-drop, min, length-replicate,
}
use audiod.Common.Ring.{Ring, new, next_power_of_two, back, copy_in, copy_out}

-- The buffer has the capacity's length, both positions lie in it, and the writer stands `filled`
-- bytes beyond the reader.
pub record IsValid (r : Ring) : Type 0 where
  pub sized : length r.buf ≡ r.cap
  pub reader : r.read_pos < r.cap
  pub writer : r.write_pos ≡ back r.cap (r.read_pos + r.filled)
  pub fits : r.filled ≤ r.cap

next_power_pos : (k p c : ℕ) → 0 < p → 0 < next_power_of_two k p c
unfolding next_power_of_two
next_power_pos zero p c h = h
next_power_pos (suc k) p c h = ground (arith, next_power_pos k (p * 2) c)

next_power_ge : (k p c : ℕ) → 0 < p → c ≤ p + k → c ≤ next_power_of_two k p c
unfolding next_power_of_two
next_power_ge zero p c h e = omega arith
next_power_ge (suc k) p c h e = ground (arith, next_power_ge k (p * 2) c)

pub new-IsValid : (c : ℕ) → IsValid (new c)
unfolding new
new-IsValid c =
    ground (arith, next_power_pos c 1 c, length-replicate {A = ℕ} (next_power_of_two c 1 c) 0)

pub copy_in-IsValid :
    (r : Ring) (bytes : List ℕ)
    → r.filled + length bytes ≤ r.cap
    → IsValid r
    → IsValid (copy_in r bytes)
unfolding copy_in
copy_in-IsValid r bytes h v = ground (
  arith,
  length-drop (min (length bytes) (r.cap - r.write_pos)) bytes,
  length-blit r.buf r.write_pos (slice bytes 0 (min (length bytes) (r.cap - r.write_pos))),
  length-blit (blit r.buf r.write_pos (slice bytes 0 (min (length bytes) (r.cap - r.write_pos)))) 0
      (drop (min (length bytes) (r.cap - r.write_pos)) bytes),
)

pub copy_out-IsValid : (r : Ring) (n : ℕ) → IsValid r → IsValid (copy_out r n).1
unfolding copy_out
copy_out-IsValid r n v = ground arith

-- A new ring holds at least what was asked for.
pub new-cap : (c : ℕ) → c ≤ (new c).cap
unfolding new
new-cap c = next_power_ge c 1 c (omega arith) (omega arith)
