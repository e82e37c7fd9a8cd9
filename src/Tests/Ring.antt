-- ===== src/Tests/Ring.antt =====
-- A ring of eight bytes.
use audiod.Prelude.{ℕ, ◌≡◌, refl, none, some, List, [], ◌∷◌, arith, replicate}
use audiod.Common.Fifo
use audiod.Common.Fifo.{Op, pushes, pops, try_pops, interrupts, clears}
use audiod.Common.Ring.{Ring, new, next_power_of_two, push, try_pop, run}
use audiod.Common.Ring.Inv.{new-IsValid}
use audiod.Common.Ring.Queue.{view, run_refines}
use audiod.Common.Ring.Blocking.{after, push_oversized, push_after_drain}

abbrev eight : Ring
eight = new 8

abbrev some_ops : List Op
some_ops =
    pushes (1 ∷ 2 ∷ 3 ∷ 4 ∷ 5 ∷ 6 ∷ [])
    ∷ pops 4
    ∷ pushes (7 ∷ 8 ∷ 9 ∷ 10 ∷ [])
    ∷ pushes (11 ∷ 12 ∷ 13 ∷ [])
    ∷ try_pops 5
    ∷ interrupts
    ∷ pops 2
    ∷ clears
    ∷ pops 1
    ∷ []

-- A write over the end of the buffer comes out in one piece.
abbrev wrapped : List ℕ
wrapped = 7 ∷ 8 ∷ 9 ∷ 10 ∷ []

run_refines_example : run eight some_ops ≡ Fifo.run (view eight) some_ops
run_refines_example = run_refines some_ops eight (new-IsValid 8)

abbrev nine : List ℕ
nine = replicate 9 1

push_oversized_example : push (after eight some_ops) nine ≡ none
unfolding new next_power_of_two
push_oversized_example = push_oversized eight nine some_ops (omega arith)

push_after_drain_example : (r' : Ring) × (push (try_pop eight eight.filled).1 wrapped ≡ some r')
unfolding new next_power_of_two
push_after_drain_example = push_after_drain eight wrapped (new-IsValid 8) refl (omega arith)
