-- ===== src/Shim/Symbols/Exact.antt =====
-- The functions that an application finds behind the fake handle.
use audiod.Prelude.{
  ℕ, ◌≡◌, refl, sym, ap, ap₂, ◌∙◌, ◌≢◌, ◌↔◌, ◌⊎◌, inl, inr, Bool, true, false, not, ◌&&◌, none,
  some, List, [], ◌∷◌, ◌++◌, arith, ◌==◌, Bool-cases, Option-cases,
}
use mathlib.Core.List.{Memᴰ, append_cancel_right}
use mathlib.Core.List.Memᴰ.{head, tail}
use mathlib.Core.Bool.{true≢false}
use mathlib.Core.Option.{none-ne-some}
use audiod.Prelude.Text.{Text, text, same_bytes}
use audiod.Shim.Symbols.{
  Address, fake, function, found, version, is_sym, first_match, symbols, lookup, dlsym,
}

same_bytes_refl : (a : Text) → same_bytes a a ≡ true
same_bytes_refl [] = refl
same_bytes_refl (x ∷ xs) = ground (arith, same_bytes_refl xs)

same_bytes-eq : (a b : Text) → same_bytes a b ≡ true → a ≡ b
same_bytes-eq [] [] h = refl
same_bytes-eq [] (y ∷ ys) h = cc
same_bytes-eq (x ∷ xs) [] h = cc
same_bytes-eq (x ∷ xs) (y ∷ ys) h = elim (Bool-cases (same_bytes xs ys)) [
  | inl t ↦ ap₂ (λ (c : ℕ) (s : Text). c ∷ s) (ground arith) (same_bytes-eq xs ys t)
  | inr t ↦ ground arith
]

is_sym-eq : (name g : Text) → is_sym name g ≡ true → (name ≡ g) ⊎ (name ≡ g ++ version)
unfolding is_sym
is_sym-eq name g h = elim (Bool-cases (same_bytes name g)) [
  | inl t ↦ inl (same_bytes-eq name g t)
  | inr t ↦ inr (same_bytes-eq name (g ++ version) (ground arith))
]

-- Without the sign in front of a version.
plain : Text → Bool
plain [] = true
plain (c ∷ s) = not (c == b'@') && plain s

all_plain : List Text → Bool
all_plain [] = true
all_plain (s ∷ ss) = plain s && all_plain ss

versioned : (g : Text) → plain (g ++ version) ≡ false
unfolding plain
versioned [] = refl
versioned (c ∷ s) = rw (versioned s) (ground arith)

-- A table without versions gives what is asked for, if no other name of it fits.
first_match-Mem :
    (table : List Text) (name func : Text)
    → is_sym name func ≡ true
    → ((g : Text) → plain g ≡ true → is_sym name g ≡ true → g ≡ func)
    → all_plain table ≡ true
    → Memᴰ func table
    → first_match table name ≡ some func
unfolding first_match all_plain
first_match-Mem [] name func s only p m = elim m [ ]
first_match-Mem (g ∷ table) name func s only p (head e) = rw (sym e, s) refl
first_match-Mem (g ∷ table) name func s only p (tail m) = elim (Bool-cases (is_sym name g)) [
  | inl t ↦ rw t (ap some (only g (ground arith) t))
  | inr t ↦ rw t (first_match-Mem table name func s only (ground arith) m)
]

first_match_sound :
    (table : List Text) (name func : Text)
    → first_match table name ≡ some func
    → Memᴰ func table × (is_sym name func ≡ true)
unfolding first_match
first_match_sound [] name func h = cc
first_match_sound (g ∷ table) name func h = elim (Bool-cases (is_sym name g)) [
  | inl t ↦ let e : func ≡ g = ground arith in (head e, rw e t)
  | inr t ↦ let r = first_match_sound table name func (ground arith) in (tail r.0, r.1)
]

symbols_plain : all_plain symbols ≡ true
unfolding all_plain plain
symbols_plain = refl

Mem-plain : (table : List Text) (g : Text) → all_plain table ≡ true → Memᴰ g table → plain g ≡ true
unfolding all_plain
Mem-plain [] g p m = elim m [ ]
Mem-plain (h ∷ table) g p (head e) = rw e (ground arith)
Mem-plain (h ∷ table) g p (tail m) = Mem-plain table g (ground arith) m

-- Of the names without a version, a name fits one only.
is_sym-only :
    (name f g : Text)
    → plain f ≡ true
    → plain g ≡ true
    → is_sym name f ≡ true
    → is_sym name g ≡ true
    → g ≡ f
is_sym-only name f g pf pg a b = elim (is_sym-eq name f a) [
  | inl x ↦ elim (is_sym-eq name g b) [
    | inl y ↦ sym y ∙ x
    | inr y ↦ absurd (true≢false (sym pf ∙ (ap plain (sym x ∙ y) ∙ versioned g)))
  ]
  | inr x ↦ elim (is_sym-eq name g b) [
    | inl y ↦ absurd (true≢false (sym pg ∙ (ap plain (sym y ∙ x) ∙ versioned f)))
    | inr y ↦ append_cancel_right g f version (sym y ∙ x)
  ]
]

lookup_iff :
    (name func : Text) → (lookup name ≡ some func) ↔ (Memᴰ func symbols × (is_sym name func ≡ true))
lookup_iff name func = (
  λ h. first_match_sound symbols name func h,
  λ v.
      let p = Mem-plain symbols func symbols_plain v.0 in
      first_match-Mem symbols name func v.1 (λ g q b. is_sym-only name func g p q v.1 b)
        symbols_plain v.0,
)

is_sym_iff :
    (name func : Text) → ((name ≡ func) ⊎ (name ≡ func ++ version)) → is_sym name func ≡ true
unfolding is_sym
is_sym_iff name func (inl e) = rw (e, same_bytes_refl func) refl
is_sym_iff name func (inr e) = rw (e, same_bytes_refl (func ++ version)) (ground arith)

snd_config-lookup : lookup (text "snd_config") ≡ none
unfolding first_match is_sym
snd_config-lookup = refl

-- For the fake handle and a name that is UTF-8, `dlsym` gives the shim's function f exactly if f
-- is in the table of `lookup` and the name is f or f with the version @ALSA_0.9 behind it, and it
-- never gives anything that the C library's dlsym has found.
pub dlsym_lem :
    (is_utf8 : Text → Bool) (real_dlsym : ℕ → Text → Address) (name func : Text)
    → is_utf8 name ≡ true
    → ((dlsym is_utf8 real_dlsym fake (some name) ≡ function func)
        ↔ (Memᴰ func symbols × ((name ≡ func) ⊎ (name ≡ func ++ version))))
      × ((n : ℕ) → dlsym is_utf8 real_dlsym fake (some name) ≢ found n)
unfolding dlsym
dlsym_lem is_utf8 real_dlsym name func u =
    let i = lookup_iff name func in
    elim (Bool-cases (same_bytes name (text "snd_config"))) [
      | inl t ↦
          let e : lookup name ≡ none =
            ap lookup (same_bytes-eq name (text "snd_config") t) ∙ snd_config-lookup in
          rw (u, t)
            (
              (
                λ h. cc,
                λ v. absurd (none-ne-some func (sym e ∙ i.1 (v.0, is_sym_iff name func v.1))),
              ),
              λ n h. cc,
            )
      | inr t ↦ elim (Option-cases (lookup name)) [
        | inl e ↦
            rw (u, t, e)
              (
                (
                  λ h. cc,
                  λ v. absurd (none-ne-some func (sym e ∙ i.1 (v.0, is_sym_iff name func v.1))),
                ),
                λ n h. cc,
              )
        | inr (f, e) ↦
            rw (u, t, e)
              (
                (
                  λ h. let m = i.0 (e ∙ cc) in (m.0, is_sym-eq name func m.1),
                  λ v. let m = i.1 (v.0, is_sym_iff name func v.1) in cc,
                ),
                λ n h. cc,
              )
      ]
    ]
