-- ===== src/Common/Fifo.antt =====
-- What a client of common/src/ring.rs may rely on: a FIFO of at most `cap` bytes, a call that has
-- to wait, and a one-shot interrupt of the reader.
use audiod.Prelude.{
  ℕ, ◌+◌, Bool, true, false, ◌&&◌, List, [], ◌∷◌, ◌++◌, ltb, if◌then◌else◌, length, take, drop,
}

pub record Fifo : Type 0 where
  pub cap : ℕ
  pub items : List ℕ
  pub interrupted : Bool

pub data Op : Type 0 where
  pushes : List ℕ → Op
  pops try_pops : ℕ → Op
  interrupts clears : Op

-- What a call gives back: the bytes read (none for a call that reads nothing), or that it waits.
pub data Reply : Type 0 where
  waits : Reply
  done : List ℕ → Reply

-- A write waits until all of it fits, an empty one never does.
unfoldable pub push : Fifo → List ℕ → Reply × Fifo
push q bytes =
    if ltb q.cap (length q.items + length bytes) && ltb 0 (length bytes)
    then (waits, q)
    else (done [], record q { items = q.items ++ bytes })

-- A reader waits for the first byte, unless it is interrupted.
unfoldable pub pop : Fifo → ℕ → Reply × Fifo
pop q n =
    if q.interrupted
    then (done [], record q { interrupted = false })
    else if ltb 0 (length q.items)
    then (done (take n q.items), record q { items = drop n q.items })
    else (waits, q)

unfoldable pub try_pop : Fifo → ℕ → Reply × Fifo
try_pop q n =
    if q.interrupted
    then (done [], record q { interrupted = false })
    else (done (take n q.items), record q { items = drop n q.items })

unfoldable pub step : Fifo → Op → Reply × Fifo
unfolding push pop try_pop
step q (pushes bytes) = push q bytes
step q (pops n) = pop q n
step q (try_pops n) = try_pop q n
step q interrupts = (done [], record q { interrupted = true })
step q clears = (done [], record q { items = [] })

unfoldable pub run : Fifo → List Op → List Reply
unfolding step
run q [] = []
run q (op ∷ ops) = let (reply, q') = step q op in reply ∷ run q' ops
