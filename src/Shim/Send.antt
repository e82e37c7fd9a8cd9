-- ===== src/Shim/Send.antt =====
-- shim/src/lib.rs: `write_all`, over what each `send` on the socket gives.
use audiod.Prelude.{
  ℕ, ◌≡◌, refl, sym, ap, ◌∙◌, ◌↔◌, Bool, true, false, Option, none, some, List, [], ◌∷◌, ◌++◌, take,
  drop, take-append-drop,
}
use mathlib.Core.List.{append_assoc}

pub data Sent : Type 0 where
  -- so many bytes were taken
  taken : ℕ → Sent
  -- EINTR, and EAGAIN or EWOULDBLOCK
  interrupted busy : Sent
  broken : Sent

-- Whether all went well (`none` where a `send` has not come back), and the bytes that went out.
unfoldable pub write_all : List ℕ → List Sent → Option Bool × List ℕ
write_all [] sends = (some true, [])
write_all (b ∷ bs) [] = (none, [])
write_all (b ∷ bs) (taken n ∷ sends) =
    let (result, out) = write_all (drop n (b ∷ bs)) sends in (result, take n (b ∷ bs) ++ out)
write_all (b ∷ bs) (interrupted ∷ sends) = write_all (b ∷ bs) sends
write_all (b ∷ bs) (busy ∷ sends) = write_all (b ∷ bs) sends
write_all (b ∷ bs) (broken ∷ sends) = (some false, [])

-- What went out is a beginning of the buffer, and all went well just if nothing of it is left.
pub write_all_lem :
    (buf : List ℕ) (sends : List Sent)
    → (rest : List ℕ) × (buf ≡ (write_all buf sends).1 ++ rest)
      × (((write_all buf sends).0 ≡ some true) ↔ (rest ≡ []))
unfolding write_all
write_all_lem [] sends = ([], refl, (λ e. refl, λ e. refl))
write_all_lem (b ∷ bs) [] = (b ∷ bs, refl, (λ e. cc, λ e. cc))
write_all_lem (b ∷ bs) (taken n ∷ sends) =
    let (rest, e, i) = write_all_lem (drop n (b ∷ bs)) sends in
    let out = (write_all (drop n (b ∷ bs)) sends).1 in
    (
      rest,
      sym (
          append_assoc (take n (b ∷ bs)) out rest
          ∙ (ap (λ (l : List ℕ). take n (b ∷ bs) ++ l) (sym e) ∙ take-append-drop n (b ∷ bs))),
      i,
    )
write_all_lem (b ∷ bs) (interrupted ∷ sends) = write_all_lem (b ∷ bs) sends
write_all_lem (b ∷ bs) (busy ∷ sends) = write_all_lem (b ∷ bs) sends
write_all_lem (b ∷ bs) (broken ∷ sends) = (b ∷ bs, refl, (λ e. cc, λ e. cc))
