-- ===== src/Common/Ring/Writing.antt =====
-- What a write that goes through leaves in a ring.
use audiod.Prelude.{
  ℕ, ◌+◌, ◌≤◌, ◌≡◌, refl, sym, inl, inr, some, List, [], ◌∷◌, ◌++◌, arith, ltb, Bool-cases, length,
}
use mathlib.Core.List.{append-nil}
use mathlib.Core.Path.{subst}
use audiod.Common.Ring.{Ring, push, copy_in}
use audiod.Common.Ring.Inv.{IsValid, copy_in-IsValid}
use audiod.Common.Ring.Queue.{contents, contents-copy_in}

copy_in_frame :
    (r : Ring) (bytes : List ℕ)
    → ((copy_in r bytes).interrupted ≡ r.interrupted)
      × ((copy_in r bytes).filled ≡ r.filled + length bytes)
unfolding copy_in
copy_in_frame r bytes = (refl, refl)

-- The bytes stand behind those that were there.
pub record Pushed (r : Ring) (bytes : List ℕ) (r' : Ring) : Type 0 where
  pub holds : contents r' ≡ contents r ++ bytes
  pub valid : IsValid r'
  pub same_flag : r'.interrupted ≡ r.interrupted
  pub grown : r'.filled ≡ r.filled + length bytes

pub push-Pushed :
    (r r' : Ring) (bytes : List ℕ) → IsValid r → push r bytes ≡ some r' → Pushed r bytes r'
unfolding push
push-Pushed r r' [] v e =
    let same : r ≡ r' = cc in
    subst (Pushed r []) same (record {
      holds = sym (append-nil (contents r));
      valid = v;
      same_flag = refl;
      grown = omega arith;
    })
push-Pushed r r' (b ∷ bytes) v e = elim (Bool-cases (ltb r.cap (r.filled + length (b ∷ bytes)))) [
  | inl z ↦ absurd (ground (arith, z))
  | inr z ↦
      let h : r.filled + length (b ∷ bytes) ≤ r.cap = ground arith in
      let same : copy_in r (b ∷ bytes) ≡ r' = ground arith in
      let f = copy_in_frame r (b ∷ bytes) in
      subst (Pushed r (b ∷ bytes)) same (record {
        holds = contents-copy_in r (b ∷ bytes) h v;
        valid = copy_in-IsValid r (b ∷ bytes) h v;
        same_flag = f.0;
        grown = f.1;
      })
]
