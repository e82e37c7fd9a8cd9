-- ===== src/Prelude/Int.antt =====
-- Signed integers over the native numbers, under the library's names.
use audiod.Prelude.{
  ℕ, suc, ◌+◌, ◌-◌, ◌*◌, ◌/◌, ◌%◌, ◌^◌, ◌≤◌, ◌<◌, min, max, ◌≡◌, sym, ap, ◌∙◌, Bool, arith, ltb,
  leb, if◌then◌else◌,
}

-- `negsuc n` is -(n + 1).
pub data ℤ : Type 0 where
  pos : ℕ → ℤ
  negsuc : ℕ → ℤ

abbrev pub pos_part : ℤ → ℕ
pos_part (pos n) = n
pos_part (negsuc n) = 0

abbrev pub neg_part : ℤ → ℕ
neg_part (pos n) = 0
neg_part (negsuc n) = suc n

-- a - b, as an integer.
abbrev pub sub_ℕ : ℕ → ℕ → ℤ
sub_ℕ a b = if leb b a then pos (a - b) else negsuc (b - a - 1)

infixl 65 ◌+ℤ◌ ◌-ℤ◌
infix 50 ◌≤ℤ◌
unfoldable pub ◌+ℤ◌ : ℤ → ℤ → ℤ
a +ℤ b = sub_ℕ (pos_part a + pos_part b) (neg_part a + neg_part b)

unfoldable pub ◌-ℤ◌ : ℤ → ℤ → ℤ
a -ℤ b = sub_ℕ (pos_part a + neg_part b) (neg_part a + pos_part b)

abbrev pub ◌≤ℤ◌ : ℤ → ℤ → Type 0
a ≤ℤ b = pos_part a + neg_part b ≤ pos_part b + neg_part a

abbrev pub ltb_ℤ : ℤ → ℤ → Bool
ltb_ℤ a b = ltb (pos_part a + neg_part b) (pos_part b + neg_part a)

-- `x.clamp(lo, hi)` on natural bounds.
abbrev pub clamp_ℤ : ℕ → ℕ → ℤ → ℕ
clamp_ℤ lo hi x = max lo (min hi (pos_part x))

-- The two's complement reading of a 16-bit pattern, and the pattern of an integer.
abbrev pub i16_of : ℕ → ℤ
i16_of w = if ltb w 0x8000 then pos w else negsuc (0xffff - w)

abbrev pub i16_bits : ℤ → ℕ
i16_bits (pos n) = n % 0x10000
i16_bits (negsuc n) = 0xffff - n % 0x10000

-- The 32-bit pattern of an integer, and the two's complement reading of a pattern.
unfoldable pub bits32 : ℤ → ℕ
bits32 (pos n) = n % 2 ^ 32
bits32 (negsuc n) = 2 ^ 32 - 1 - n % 2 ^ 32

unfoldable pub i32_of : ℕ → ℤ
i32_of w = if ltb w (2 ^ 31) then pos w else negsuc (2 ^ 32 - 1 - w)

-- An `i32` that wraps around.
unfoldable pub wrap32 : ℤ → ℤ
unfolding bits32 i32_of
wrap32 x = i32_of (bits32 x)

-- One lemma for each operation lets `omega` work with the operations shut.
+ℤ_parts :
    (a b : ℤ)
    → pos_part (a +ℤ b) + neg_part a + neg_part b ≡ neg_part (a +ℤ b) + pos_part a + pos_part b
unfolding ◌+ℤ◌
+ℤ_parts a b = ground arith

eq_of_parts : (a b : ℤ) → pos_part a + neg_part b ≡ pos_part b + neg_part a → a ≡ b
eq_of_parts a b h = ground arith

pub +ℤ_assoc : (a b c : ℤ) → (a +ℤ b) +ℤ c ≡ a +ℤ (b +ℤ c)
+ℤ_assoc a b c =
    eq_of_parts ((a +ℤ b) +ℤ c) (a +ℤ (b +ℤ c))
      (omega (arith, +ℤ_parts a b, +ℤ_parts b c, +ℤ_parts (a +ℤ b) c, +ℤ_parts a (b +ℤ c)))

pub +ℤ_zero : (a : ℤ) → a +ℤ pos 0 ≡ a
unfolding ◌+ℤ◌
+ℤ_zero a = ground arith

pub zero_+ℤ : (a : ℤ) → pos 0 +ℤ a ≡ a
unfolding ◌+ℤ◌
zero_+ℤ a = ground arith

bits32_lt : (x : ℤ) → bits32 x < 2 ^ 32
unfolding bits32
bits32_lt (pos n) = omega arith
bits32_lt (negsuc n) = omega arith

bits32-i32_of : (w : ℕ) → w < 2 ^ 32 → bits32 (i32_of w) ≡ w
unfolding bits32 i32_of
bits32-i32_of w h = ground arith

-- A number that is `r` up to whole turns.
turns : (n : ℕ) → (k : ℕ) × (n ≡ k * 2 ^ 32 + n % 2 ^ 32)
turns n = (n / 2 ^ 32, omega arith)

bits32_parts : (x : ℤ) → (bits32 x + neg_part x) % 2 ^ 32 ≡ pos_part x % 2 ^ 32
unfolding bits32
bits32_parts (pos n) = omega arith
bits32_parts (negsuc n) = omega arith

same_bits :
    (w v n p : ℕ)
    → w < 2 ^ 32
    → v < 2 ^ 32
    → (w + n) % 2 ^ 32 ≡ p % 2 ^ 32
    → (v + n) % 2 ^ 32 ≡ p % 2 ^ 32
    → w ≡ v
same_bits w v n p a b h k = omega arith

bits32_add : (a b : ℤ) → bits32 (a +ℤ b) ≡ (bits32 a + bits32 b) % 2 ^ 32
bits32_add a b =
    let c = a +ℤ b in
    same_bits (bits32 c) ((bits32 a + bits32 b) % 2 ^ 32) (neg_part c + pos_part a + pos_part b)
      (pos_part c + pos_part a + pos_part b) (bits32_lt c) (omega arith)
      (omega (arith, bits32_parts c)) (omega (arith, bits32_parts a, bits32_parts b, +ℤ_parts a b))

-- It is enough to wrap a sum around at its end.
pub wrap32_add : (a b : ℤ) → wrap32 (wrap32 a +ℤ b) ≡ wrap32 (a +ℤ b)
unfolding wrap32
wrap32_add a b = ap i32_of (
    bits32_add (i32_of (bits32 a)) b
    ∙ ap (λ (w : ℕ). (w + bits32 b) % 2 ^ 32) (bits32-i32_of (bits32 a) (bits32_lt a))
    ∙ sym (bits32_add a b))
