-- ===== src/Prelude/Lists.antt =====
-- Lists measured and indexed by native numbers, under the library's names, and the slice
-- operations of Rust: `slice xs i n` is `xs[i..i + n]`, `blit xs i vs` is
-- `xs[i..i + vs.len()].copy_from_slice(vs)`.
use Prim.Native.Nat.{ℕ, zero, suc, ◌+◌, ◌-◌, ◌≤◌, ◌<◌, min}
use mathlib.Core.Path.{◌≡◌, refl, ap, ap₂, ◌∙◌}
use mathlib.Core.Logic.{◌⊎◌}
use mathlib.Core.List.{List, [], ◌∷◌, ◌++◌}
use native.Mathlib.Omega.{arith}

module _ {ℓ} {A : Type ℓ} where
  abbrev pub length : List A → ℕ
  length [] = 0
  length (x ∷ xs) = suc (length xs)

  abbrev pub get_or : List A → ℕ → A → A
  get_or [] i d = d
  get_or (x ∷ xs) zero d = x
  get_or (x ∷ xs) (suc i) d = get_or xs i d

  abbrev pub take : ℕ → List A → List A
  take zero xs = []
  take (suc n) [] = []
  take (suc n) (x ∷ xs) = x ∷ take n xs

  abbrev pub drop : ℕ → List A → List A
  drop zero xs = xs
  drop (suc n) [] = []
  drop (suc n) (x ∷ xs) = drop n xs

  abbrev pub replicate : ℕ → A → List A
  replicate zero a = []
  replicate (suc n) a = a ∷ replicate n a

  abbrev pub slice : List A → ℕ → ℕ → List A
  slice xs i n = take n (drop i xs)

  -- Bytes that would land past the end are lost; the invariants rule that out.
  abbrev pub blit : List A → ℕ → List A → List A
  blit [] i vs = []
  blit (x ∷ xs) zero [] = x ∷ xs
  blit (x ∷ xs) zero (v ∷ vs) = v ∷ blit xs zero vs
  blit (x ∷ xs) (suc i) vs = x ∷ blit xs i vs

  abbrev pub tabulate : ℕ → (ℕ → A) → List A
  tabulate zero f = []
  tabulate (suc n) f = f 0 ∷ tabulate n (λ k. f (suc k))

  abbrev pub concat : List (List A) → List A
  concat [] = []
  concat (xs ∷ xss) = xs ++ concat xss

module _ {ℓ} {A : Type ℓ} where
  pub length-append : (xs ys : List A) → length (xs ++ ys) ≡ length xs + length ys
  length-append [] ys = omega arith
  length-append (x ∷ xs) ys = omega (arith, length-append xs ys)

  pub length-replicate : (n : ℕ) (a : A) → length (replicate n a) ≡ n
  length-replicate zero a = refl
  length-replicate (suc n) a = ap suc (length-replicate n a)

  pub length-take : (n : ℕ) (xs : List A) → length (take n xs) ≡ min n (length xs)
  length-take zero xs = omega arith
  length-take (suc n) [] = omega arith
  length-take (suc n) (x ∷ xs) = omega (arith, length-take n xs)

  pub length-drop : (n : ℕ) (xs : List A) → length (drop n xs) ≡ length xs - n
  length-drop zero xs = omega arith
  length-drop (suc n) [] = omega arith
  length-drop (suc n) (x ∷ xs) = omega (arith, length-drop n xs)

  pub take-append-drop : (n : ℕ) (xs : List A) → take n xs ++ drop n xs ≡ xs
  take-append-drop zero xs = refl
  take-append-drop (suc n) [] = refl
  take-append-drop (suc n) (x ∷ xs) = ap (◌∷◌ x) (take-append-drop n xs)

  pub length-blit : (xs : List A) (i : ℕ) (vs : List A) → length (blit xs i vs) ≡ length xs
  length-blit [] i vs = refl
  length-blit (x ∷ xs) zero [] = refl
  length-blit (x ∷ xs) zero (v ∷ vs) = ap suc (length-blit xs zero vs)
  length-blit (x ∷ xs) (suc i) vs = ap suc (length-blit xs i vs)

  pub length-tabulate : (n : ℕ) (f : ℕ → A) → length (tabulate n f) ≡ n
  length-tabulate zero f = refl
  length-tabulate (suc n) f = ap suc (length-tabulate n (λ k. f (suc k)))

  pub get_or-blit_in :
      (xs : List A) (i : ℕ) (vs : List A) (j : ℕ) (d : A)
      → i + length vs ≤ length xs
      → i ≤ j
      → j < i + length vs
      → get_or (blit xs i vs) j d ≡ get_or vs (j - i) d
  get_or-blit_in [] i vs j d h p q = absurd (omega arith)
  get_or-blit_in (x ∷ xs) zero [] j d h p q = absurd (omega arith)
  get_or-blit_in (x ∷ xs) zero (v ∷ vs) zero d h p q = refl
  get_or-blit_in (x ∷ xs) zero (v ∷ vs) (suc j) d h p q =
      ground (arith, get_or-blit_in xs zero vs j d)
  get_or-blit_in (x ∷ xs) (suc i) vs zero d h p q = absurd (omega arith)
  get_or-blit_in (x ∷ xs) (suc i) vs (suc j) d h p q = ground (arith, get_or-blit_in xs i vs j d)

  pub get_or-blit_out :
      (xs : List A) (i : ℕ) (vs : List A) (j : ℕ) (d : A)
      → (j < i) ⊎ (i + length vs ≤ j)
      → get_or (blit xs i vs) j d ≡ get_or xs j d
  get_or-blit_out [] i vs j d h = refl
  get_or-blit_out (x ∷ xs) zero [] j d h = refl
  get_or-blit_out (x ∷ xs) zero (v ∷ vs) zero d h = absurd (omega arith)
  get_or-blit_out (x ∷ xs) zero (v ∷ vs) (suc j) d h = get_or-blit_out xs zero vs j d (omega arith)
  get_or-blit_out (x ∷ xs) (suc i) vs zero d h = refl
  get_or-blit_out (x ∷ xs) (suc i) vs (suc j) d h = get_or-blit_out xs i vs j d (omega arith)

  pub tabulate_ext :
      (n : ℕ) (f g : ℕ → A) → ((k : ℕ) → k < n → f k ≡ g k) → tabulate n f ≡ tabulate n g
  tabulate_ext zero f g h = refl
  tabulate_ext (suc n) f g h =
      ap₂ ◌∷◌ (h 0 (omega arith))
        (tabulate_ext n (λ k. f (suc k)) (λ k. g (suc k)) (λ k p. h (suc k) (omega arith)))

  pub tabulate_self : (xs : List A) (d : A) → tabulate (length xs) (λ k. get_or xs k d) ≡ xs
  tabulate_self [] d = refl
  tabulate_self (x ∷ xs) d = ap (◌∷◌ x) (tabulate_self xs d)

  -- The first `n` entries, then the next `m`.
  pub tabulate-add :
      (n m : ℕ) (f : ℕ → A) → tabulate (n + m) f ≡ tabulate n f ++ tabulate m (λ k. f (n + k))
  tabulate-add zero m f =
      let e : zero + m ≡ m = omega arith in
      rw e (tabulate_ext m f (λ k. f (zero + k)) (λ k p. ap f (omega arith)))
  tabulate-add (suc n) m f =
      let e : suc n + m ≡ suc (n + m) = omega arith in
      rw (e, tabulate-add n m (λ k. f (suc k)))
        (ap (λ (l : List A). f 0 ∷ (tabulate n (λ k. f (suc k)) ++ l))
          (tabulate_ext m (λ k. f (suc (n + k))) (λ k. f (suc n + k)) (λ k p. ap f (omega arith))))

  pub tabulate-slice :
      (xs : List A) (i n : ℕ) (d : A)
      → i + n ≤ length xs
      → slice xs i n ≡ tabulate n (λ k. get_or xs (i + k) d)
  tabulate-slice xs i zero d h = refl
  tabulate-slice [] i (suc n) d h = absurd (omega arith)
  tabulate-slice (x ∷ xs) zero (suc n) d h = ap (◌∷◌ x) (
      tabulate-slice xs zero n d (omega arith)
      ∙ tabulate_ext n (λ k. get_or xs (zero + k) d) (λ k. get_or (x ∷ xs) (zero + suc k) d)
          (λ k p.
            let e : zero + suc k ≡ suc k = omega arith in
            let e' : zero + k ≡ k = omega arith in rw (e, e')))
  tabulate-slice (x ∷ xs) (suc i) (suc n) d h =
      tabulate-slice xs i (suc n) d (omega arith)
      ∙ tabulate_ext (suc n) (λ k. get_or xs (i + k) d) (λ k. get_or (x ∷ xs) (suc i + k) d)
          (λ k p. let e : suc i + k ≡ suc (i + k) = omega arith in rw e)

  pub get_or-take :
      (n : ℕ) (xs : List A) (k : ℕ) (d : A) → k < n → get_or (take n xs) k d ≡ get_or xs k d
  get_or-take zero xs k d h = absurd (omega arith)
  get_or-take (suc n) [] k d h = refl
  get_or-take (suc n) (x ∷ xs) zero d h = refl
  get_or-take (suc n) (x ∷ xs) (suc k) d h = get_or-take n xs k d (omega arith)

  pub get_or-drop :
      (n : ℕ) (xs : List A) (k : ℕ) (d : A) → get_or (drop n xs) k d ≡ get_or xs (n + k) d
  get_or-drop zero xs k d = ap (λ j. get_or xs j d) (omega arith)
  get_or-drop (suc n) [] k d = refl
  get_or-drop (suc n) (x ∷ xs) k d =
      let e : suc n + k ≡ suc (n + k) = omega arith in rw e (get_or-drop n xs k d)

  pub take-tabulate : (n m : ℕ) (f : ℕ → A) → take n (tabulate m f) ≡ tabulate (min n m) f
  take-tabulate zero m f = let e : min 0 m ≡ 0 = omega arith in rw e
  take-tabulate (suc n) zero f = let e : min (suc n) 0 ≡ 0 = omega arith in rw e
  take-tabulate (suc n) (suc m) f =
      let e : min (suc n) (suc m) ≡ suc (min n m) = omega arith in
      rw e (ap (◌∷◌ (f 0)) (take-tabulate n m (λ k. f (suc k))))

  pub drop-tabulate :
      (n m : ℕ) (f : ℕ → A) → drop n (tabulate m f) ≡ tabulate (m - min n m) (λ k. f (min n m + k))
  drop-tabulate zero m f =
      let e : min 0 m ≡ 0 = omega arith in
      let e' : m - 0 ≡ m = omega arith in
      rw (e, e') (tabulate_ext m f (λ k. f (0 + k)) (λ k p. ap f (omega arith)))
  drop-tabulate (suc n) zero f = let e : 0 - min (suc n) 0 ≡ 0 = omega arith in rw e
  drop-tabulate (suc n) (suc m) f =
      let e : min (suc n) (suc m) ≡ suc (min n m) = omega arith in
      let e' : suc m - suc (min n m) ≡ m - min n m = omega arith in
      drop-tabulate n m (λ k. f (suc k))
      ∙ rw (e, e')
          (tabulate_ext (m - min n m) (λ k. f (suc (min n m + k))) (λ k. f (suc (min n m) + k))
            (λ k p. ap f (omega arith)))

module _ {ℓ} {A : Type ℓ} where
  pub take-nil : (n : ℕ) → take {A = A} n [] ≡ []
  take-nil zero = refl
  take-nil (suc n) = refl

  pub drop-nil : (n : ℕ) → drop {A = A} n [] ≡ []
  drop-nil zero = refl
  drop-nil (suc n) = refl
