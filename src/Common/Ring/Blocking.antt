-- ===== src/Common/Ring/Blocking.antt =====
-- When a producer waits, and when it waits for ever.
use audiod.Prelude.{ℕ, ◌≤◌, ◌<◌, ◌≡◌, refl, ◌∙◌, false, none, some, List, [], ◌∷◌, arith, length}
use audiod.Common.Fifo.{Op, pushes, pops, try_pops, interrupts, clears}
use audiod.Common.Ring.{Ring, copy_in, push, copy_out, pop, try_pop, interrupt, clear, step}
use audiod.Common.Ring.Inv.{IsValid}

-- What a ring comes to after some calls.
pub after : Ring → List Op → Ring
after r [] = r
after r (op ∷ ops) = after (step r op).1 ops

cap-step : (r : Ring) (op : Op) → (step r op).1.cap ≡ r.cap
unfolding step push pop try_pop interrupt clear copy_in copy_out
cap-step r (pushes []) = refl
cap-step r (pushes (b ∷ bytes)) = ground arith
cap-step r (pops n) = ground arith
cap-step r (try_pops n) = ground arith
cap-step r interrupts = refl
cap-step r clears = refl

cap-after : (ops : List Op) (r : Ring) → (after r ops).cap ≡ r.cap
unfolding after
cap-after [] r = refl
cap-after (op ∷ ops) r = cap-after ops (step r op).1 ∙ cap-step r op

-- A write longer than the ring never goes through, whatever calls come before it.
pub push_oversized :
    (r : Ring) (bytes : List ℕ) (ops : List Op)
    → r.cap < length bytes
    → push (after r ops) bytes ≡ none
unfolding push
push_oversized r [] ops h = absurd (omega arith)
push_oversized r (b ∷ bytes) ops h = ground (arith, cap-after ops r)

-- A write no longer than a valid ring that is not interrupted goes through once a reader has taken
-- all that was there.
pub push_after_drain :
    (r : Ring) (bytes : List ℕ)
    → IsValid r
    → r.interrupted ≡ false
    → length bytes ≤ r.cap
    → (r' : Ring) × (push (try_pop r r.filled).1 bytes ≡ some r')
unfolding push try_pop copy_out
push_after_drain r [] v i h = ((try_pop r r.filled).1, refl)
push_after_drain r (b ∷ bytes) v i h = (copy_in (try_pop r r.filled).1 (b ∷ bytes), ground arith)
