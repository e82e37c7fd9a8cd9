-- ===== src/Hda/Rate.antt =====
-- hda/src/stream.rs: the rates that the link can run at, and the format register.
pub mod Exact
use audiod.Prelude.{
  ℕ, zero, suc, ◌+◌, ◌-◌, ◌*◌, ◌%◌, ◌^◌, Bool, true, false, Option, none, some, List, [], ◌∷◌, ◌==◌,
  if◌then◌else◌, bit_or,
}

-- The two clock families, each with its bit.
abbrev pub families : List (ℕ × ℕ)
families = (48000, 0) ∷ (44100, 1) ∷ []

-- The inner loop: the first divisor from `div` on, of `left` that are to come. The products are
-- those of `u32`.
unfoldable pub find_div : ℕ → ℕ → ℕ → ℕ → ℕ → Option ℕ
find_div rate freq mult zero div = none
find_div rate freq mult (suc left) div =
    let rest = find_div rate freq mult left (div + 1) in
    if freq * mult % 2 ^ 32 == rate * div % 2 ^ 32 then some div else rest

-- The middle loop: a multiplier and a divisor.
unfoldable pub find_mult : ℕ → ℕ → ℕ → ℕ → Option (ℕ × ℕ)
find_mult rate freq zero mult = none
find_mult rate freq (suc left) mult = elim (find_div rate freq mult 8 1) [
  | some div ↦ some (mult, div)
  | none ↦ find_mult rate freq left (mult + 1)
]

unfoldable pub find_base : ℕ → List (ℕ × ℕ) → Option (ℕ × ℕ × ℕ)
find_base rate [] = none
find_base rate ((freq, base) ∷ more) = elim (find_mult rate freq 8 1) [
  | some (mult, div) ↦ some (base, mult, div)
  | none ↦ find_base rate more
]

unfoldable pub encode_rate : ℕ → Option (ℕ × ℕ × ℕ)
encode_rate rate = find_base rate families

unfoldable pub rate_supported : ℕ → Bool
rate_supported rate = elim (encode_rate rate) [ none ↦ false | some t ↦ true ]

abbrev pub or_48000 : Option (ℕ × ℕ × ℕ) → ℕ × ℕ × ℕ
or_48000 none = (0, 1, 1)
or_48000 (some t) = t

-- Stereo, 16 bits, divisor, multiplier, base.
unfoldable pub format_val : ℕ → ℕ
format_val rate =
    let (base, mult, div) = or_48000 (encode_rate rate) in
    bit_or (bit_or (bit_or (bit_or 1 0x10) ((div - 1) * 2 ^ 8)) ((mult - 1) * 2 ^ 11))
      (base * 2 ^ 14)
    % 2 ^ 16
