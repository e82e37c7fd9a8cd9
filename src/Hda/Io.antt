-- ===== src/Hda/Io.antt =====
-- Calls on the driver that may fail: `none` is a failed assertion, on which the source panics, `err`
-- an error that the caller gets.
use audiod.Prelude.{Option, none, some, Bool, if◌then◌else◌}
use audiod.Hda.Corb.{Result, ok, err, Error}

abbrev pub Io : Type 0 → Type 0 → Type 0
Io D A = D → Option (Result A × D)

-- What comes behind a call, if it gives a value.
abbrev pub after : {D A B : Type 0} → Option (Result A × D) → (A → Io D B) → Option (Result B × D)
after none f = none
after (some (err e, d)) f = some (err e, d)
after (some (ok a, d)) f = f a d

infixl 5 ◌>>=◌ ◌>>◌
abbrev pub ◌>>=◌ : {D A B : Type 0} → Io D A → (A → Io D B) → Io D B
◌>>=◌ m f d = after (m d) f

abbrev pub ◌>>◌ : {D B : Type 0} → Io D (Unit {0}) → Io D B → Io D B
m >> k = m >>= λ _. k

abbrev pub give : {D A : Type 0} → A → Io D A
give a d = some (ok a, d)

abbrev pub fail : {D A : Type 0} → Error → Io D A
fail e d = some (err e, d)

-- Writes to registers, and reads.
abbrev pub tell : {D : Type 0} → (D → D) → Io D (Unit {0})
tell f d = some (ok tt, f d)

abbrev pub ask : {D A : Type 0} → (D → A × D) → Io D A
ask f d = let (a, d') = f d in some (ok a, d')

abbrev pub attempt : {D A : Type 0} → (D → Result A × D) → Io D A
attempt f d = some (f d)

-- A buffer that the system may refuse, and an assertion.
abbrev pub or_fail : {D A : Type 0} → Option A → Error → Io D A
or_fail none e d = some (err e, d)
or_fail (some a) e d = some (ok a, d)

abbrev pub asserted : {D A : Type 0} → Option A → Io D A
asserted none d = none
asserted (some a) d = some (ok a, d)

abbrev pub guard : {D : Type 0} → Bool → Error → Io D (Unit {0})
guard test e d = if test then some (ok tt, d) else some (err e, d)

-- A result that is not an error is as `P` says.
abbrev pub Gives : {A : Type 0} → (A → Type 0) → Result A → Type 0
Gives P (err e) = Unit {0}
Gives P (ok a) = P a

-- No assertion fails either.
abbrev pub Ensures : {D A : Type 0} → (A → Type 0) → Option (Result A × D) → Type 0
Ensures P none = ⊥
Ensures P (some (r, d)) = Gives P r

pub Ensures-after :
    {D A B : Type 0} (P : A → Type 0) (Q : B → Type 0) (r : Option (Result A × D)) (f : A → Io D B)
    → Ensures P r
    → ((a : A) (d : D) → P a → Ensures Q (f a d))
    → Ensures Q (after r f)
Ensures-after P Q none f h k = absurd h
Ensures-after P Q (some (err e, d)) f h k = tt
Ensures-after P Q (some (ok a, d)) f h k = k a d h
