-- ===== src/Hda/Rate/Exact.antt =====
-- The search for a multiplier and a divisor finds one if there is any.
use native.Mathlib.Nat.{mul-le-mul_right}
use audiod.Prelude.{
  ℕ, zero, suc, ◌+◌, ◌*◌, ◌%◌, ◌^◌, ◌≤◌, ◌<◌, ◌≡◌, ◌≢◌, ◌⊎◌, inl, inr, none, some, List, [], ◌∷◌,
  arith, ◌==◌, if◌then◌else◌,
}
use audiod.Hda.Rate.{find_div, find_mult, find_base, encode_rate}

-- `u32` equality of the two products.
abbrev Fits : ℕ → ℕ → ℕ → ℕ → Type 0
Fits rate freq mult div = freq * mult % 2 ^ 32 ≡ rate * div % 2 ^ 32

find_div_found :
    (rate freq mult left div d : ℕ)
    → find_div rate freq mult left div ≡ some d
    → Fits rate freq mult d × (div ≤ d) × (d < div + left)
unfolding find_div
find_div_found rate freq mult zero div d e = absurd (ground arith)
find_div_found rate freq mult (suc left) div d e =
    ground (arith, find_div_found rate freq mult left (div + 1) d)

find_div_complete :
    (rate freq mult left div d : ℕ)
    → find_div rate freq mult left div ≡ none
    → div ≤ d
    → d < div + left
    → ¬ Fits rate freq mult d
unfolding find_div
find_div_complete rate freq mult zero div d e p q f = omega arith
find_div_complete rate freq mult (suc left) div d e p q f =
    ground (arith, find_div_complete rate freq mult left (div + 1) d)

find_mult_found :
    (rate freq left mult m d : ℕ)
    → find_mult rate freq left mult ≡ some (m, d)
    → Fits rate freq m d × (mult ≤ m) × (m < mult + left) × (1 ≤ d) × (d < 9)
unfolding find_mult
find_mult_found rate freq zero mult m d e = absurd (ground arith)
find_mult_found rate freq (suc left) mult m d e =
    ground
      (arith, find_mult_found rate freq left (mult + 1) m d, find_div_found rate freq mult 8 1 d)

find_mult_complete :
    (rate freq left mult m d : ℕ)
    → find_mult rate freq left mult ≡ none
    → mult ≤ m
    → m < mult + left
    → 1 ≤ d
    → d < 9
    → ¬ Fits rate freq m d
unfolding find_mult
find_mult_complete rate freq zero mult m d e p q r s f = omega arith
find_mult_complete rate freq (suc left) mult m d e p q r s f = ground (
  arith,
  find_mult_complete rate freq left (mult + 1) m d,
  find_div_complete rate freq mult 8 1 d,
)

-- The clock of a family's bit.
abbrev pub clock : ℕ → ℕ
clock base = if base == 0 then 48000 else 44100

first_family :
    (rate freq bit : ℕ) (more : List (ℕ × ℕ)) (base mult div : ℕ)
    → find_base rate ((freq, bit) ∷ more) ≡ some (base, mult, div)
    → ((base ≡ bit) × (find_mult rate freq 8 1 ≡ some (mult, div)))
      ⊎ (find_base rate more ≡ some (base, mult, div))
unfolding find_base
first_family rate freq bit more base mult div e = ground arith

which_family :
    (rate base mult div : ℕ)
    → encode_rate rate ≡ some (base, mult, div)
    → ((base ≡ 0) × (find_mult rate 48000 8 1 ≡ some (mult, div)))
      ⊎ ((base ≡ 1) × (find_mult rate 44100 8 1 ≡ some (mult, div)))
unfolding encode_rate find_base
which_family rate base mult div e =
    elim (first_family rate 48000 0 ((44100, 1) ∷ []) base mult div e) [
      | inl f ↦ inl f
      | inr f ↦ elim (first_family rate 44100 1 [] base mult div f) [
        | inl g ↦ inr g
        | inr g ↦ absurd (ground arith)
      ]
    ]

exact_product :
    (rate freq mult div : ℕ)
    → rate < 2 ^ 29
    → freq ≤ 48000
    → find_mult rate freq 8 1 ≡ some (mult, div)
    → (freq * mult ≡ rate * div) × (1 ≤ mult) × (mult ≤ 8) × (1 ≤ div) × (div ≤ 8)
exact_product rate freq mult div h f e =
    let (p, a, b, c, d) = find_mult_found rate freq 8 1 mult div e in
    let l : freq * mult ≤ 48000 * mult = mul-le-mul_right mult f in
    let r : rate * div ≤ 536870911 * div = mul-le-mul_right div (omega arith) in
    (omega arith, a, omega arith, c, omega arith)

-- The encoding of a rate below 2^29 is exact: clock times multiplier is rate times divisor, with a
-- multiplier and a divisor from 1 to 8 and a base bit of at most 1.
pub encode_rate_exact :
    (rate base mult div : ℕ)
    → rate < 2 ^ 29
    → encode_rate rate ≡ some (base, mult, div)
    → (clock base * mult ≡ rate * div)
      × (1 ≤ mult)
      × (mult ≤ 8)
      × (1 ≤ div)
      × (div ≤ 8)
      × (base ≤ 1)
encode_rate_exact rate base mult div h e = elim (which_family rate base mult div e) [
  | inl (b, f) ↦
      let p = exact_product rate 48000 mult div h (omega arith) f in
      rw b (p.0, p.1, p.2, p.3, p.4, omega arith)
  | inr (b, f) ↦
      let p = exact_product rate 44100 mult div h (omega arith) f in
      rw b (p.0, p.1, p.2, p.3, p.4, omega arith)
]

-- If a rate has no encoding, then rate times divisor is neither clock times a multiplier, for any
-- multiplier and divisor from 1 to 8.
pub encode_rate_complete :
    (rate base mult div : ℕ)
    → encode_rate rate ≡ none
    → 1 ≤ mult
    → mult ≤ 8
    → 1 ≤ div
    → div ≤ 8
    → clock base * mult ≢ rate * div
unfolding encode_rate find_base
encode_rate_complete rate base mult div e p q r s f =
    ground (
      arith,
      find_mult_complete rate 48000 8 1 mult div,
      find_mult_complete rate 44100 8 1 mult div,
    )
