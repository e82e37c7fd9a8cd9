-- ===== src/Common/Ring/Reading.antt =====
-- What a reader that does not wait takes off a ring that nobody interrupts.
use audiod.Prelude.{
  ℕ, ◌-◌, min, ◌≡◌, refl, sym, ap, ◌∙◌, inl, inr, false, List, [], arith, ◌==◌, ==_iff, Bool-cases,
  take, drop, tabulate, take-nil, drop-nil,
}
use mathlib.Core.Path.{subst}
use audiod.Common.Ring.{Ring, try_pop, copy_out}
use audiod.Common.Ring.Inv.{IsValid, copy_out-IsValid}
use audiod.Common.Ring.Queue.{contents, byte_at, copy_out_lem, copy_out_frame}

filled-copy_out : (r : Ring) (n : ℕ) → (copy_out r n).1.filled ≡ r.filled - min n r.filled
unfolding copy_out
filled-copy_out r n = refl

-- The oldest bytes, and the ring goes on with the others.
pub record Taken (r : Ring) (n : ℕ) (got : List ℕ) (r' : Ring) : Type 0 where
  pub bytes : got ≡ take n (contents r)
  pub rest : contents r' ≡ drop n (contents r)
  pub valid : IsValid r'
  pub calm : r'.interrupted ≡ false
  pub left : r'.filled ≡ r.filled - min n r.filled

pub try_pop-Taken :
    (r : Ring) (n : ℕ)
    → IsValid r
    → r.interrupted ≡ false
    → Taken r n (try_pop r n).0 (try_pop r n).1
unfolding try_pop
try_pop-Taken r n v c = elim (Bool-cases (r.filled == 0)) [
  | inl z ↦
      let e : contents r ≡ [] = ap (λ k. tabulate k (byte_at r)) ((==_iff r.filled 0).0 z) in
      let p : try_pop r n ≡ ([], r) = ground arith in
      subst (λ (q : List ℕ × Ring). Taken r n q.0 q.1) (sym p)
        (record {
          bytes = rw e (sym (take-nil n));
          rest = rw e (sym (drop-nil n));
          valid = v;
          calm = c;
          left = ground arith;
        })
  | inr z ↦
      let l = copy_out_lem r n v in
      let p : try_pop r n ≡ copy_out r n = ground arith in
      subst (λ (q : List ℕ × Ring). Taken r n q.0 q.1) (sym p)
        (record {
          bytes = l.0;
          rest = l.1;
          valid = copy_out-IsValid r n v;
          calm = (copy_out_frame r n).1 ∙ c;
          left = filled-copy_out r n;
        })
]
