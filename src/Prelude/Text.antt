-- ===== src/Prelude/Text.antt =====
-- Texts, as the lists of their bytes, with the tests on them that the program takes from the
-- standard library.
use Prim.Native.Char.{code}
use Prim.Native.String.{String}
use audiod.Prelude.{
  ℕ, Bool, true, false, ◌&&◌, Option, none, some, List, [], ◌∷◌, ◌==◌, if◌then◌else◌,
}

abbrev pub Text : Type 0
Text = List ℕ

-- The bytes of an ASCII literal.
abbrev pub text : String → Text
text String.[] = []
text (String.◌∷◌ c s) = code c ∷ text s

unfoldable pub strip_prefix : Text → Text → Option Text
strip_prefix [] s = some s
strip_prefix (p ∷ ps) [] = none
strip_prefix (p ∷ ps) (c ∷ s) = let rest = strip_prefix ps s in if p == c then rest else none

abbrev pub same_bytes : List ℕ → List ℕ → Bool
same_bytes [] [] = true
same_bytes [] (y ∷ ys) = false
same_bytes (x ∷ xs) [] = false
same_bytes (x ∷ xs) (y ∷ ys) = (x == y) && same_bytes xs ys

-- `str::contains`
unfoldable pub contains_text : Text → Text → Bool
unfolding strip_prefix
contains_text part [] = same_bytes part []
contains_text part (c ∷ s) =
    let rest = contains_text part s in
    elim (strip_prefix part (c ∷ s)) [ some after ↦ true | none ↦ rest ]
