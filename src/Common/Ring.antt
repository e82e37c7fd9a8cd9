-- ===== src/Common/Ring.antt =====
-- common/src/ring.rs: `AudioRingBuffer`, the bounded byte ring between one producer and one
-- consumer. `push`, `pop` and `try_pop` run under the mutex from end to end (`filled` changes only
-- there and in `clear`), so each is one step of the state below; `none` is a thread that waits on
-- its condition variable. The children state what the ring is for a client.
pub mod Inv
pub mod Queue
pub mod Reading
pub mod Writing
pub mod Blocking
use audiod.Prelude.{
  ℕ, zero, suc, ◌+◌, ◌-◌, ◌*◌, ◌≤◌, min, ◌≡◌, Bool, true, false, Option, none, some, List, [], ◌∷◌,
  ◌++◌, length, drop, replicate, slice, blit, ltb, leb, ◌==◌, if◌then◌else◌,
}
use audiod.Common.Fifo.{Op, pushes, pops, try_pops, interrupts, clears, Reply, waits, done}

-- `AudioRingBuffer` and its `Inner`, without the lock and the condition variables.
pub record Ring : Type 0 where
  pub cap : ℕ
  pub buf : List ℕ
  pub read_pos : ℕ
  pub write_pos : ℕ
  pub filled : ℕ
  pub interrupted : Bool

-- `usize::next_power_of_two`, of the standard library: the least power of two that is not below.
-- The rounds left bound the search; `capacity` of them always suffice.
unfoldable pub next_power_of_two : ℕ → ℕ → ℕ → ℕ
next_power_of_two zero p capacity = p
next_power_of_two (suc k) p capacity = elim (leb capacity p) [
  | true ↦ p
  | false ↦ next_power_of_two k (p * 2) capacity
]

unfoldable pub new : ℕ → Ring
new capacity =
    let cap : ℕ = next_power_of_two capacity 1 capacity in
    record {
      cap = cap;
      buf = replicate cap 0;
      read_pos = 0;
      write_pos = 0;
      filled = 0;
      interrupted = false;
    }

pub available : Ring → ℕ
available r = r.cap - r.filled

-- The writer's position after `data`, with its wrap-around in two steps as in the code.
abbrev pub back : ℕ → ℕ → ℕ
back cap pos = if leb cap pos then pos - cap else pos

-- `push` once there is room.
unfoldable pub copy_in : Ring → List ℕ → Ring
copy_in r bytes =
    let space_to_end = r.cap - r.write_pos in
    let first = min (length bytes) space_to_end in
    let head = blit r.buf r.write_pos (slice bytes 0 first) in
    let remaining = drop first bytes in
    record r {
      buf = if ltb first (length bytes) then blit head 0 remaining else head;
      write_pos =
          back r.cap (if ltb first (length bytes) then length remaining else r.write_pos + first);
      filled = r.filled + length bytes;
    }

unfoldable pub push : Ring → List ℕ → Option Ring
push r [] = some r
push r (b ∷ bytes) =
    if ltb r.cap (r.filled + length (b ∷ bytes)) then none else some (copy_in r (b ∷ bytes))

unfoldable pub interrupt : Ring → Ring
interrupt r = record r { interrupted = true }

-- `copy_out` into a buffer of `n` bytes: the bytes that it writes there, and the ring.
unfoldable pub copy_out : Ring → ℕ → List ℕ × Ring
copy_out r n =
    let to_read = min n r.filled in
    let space_to_end = r.cap - r.read_pos in
    let first = min to_read space_to_end in
    let head = slice r.buf r.read_pos first in
    (
      if ltb first to_read then head ++ slice r.buf 0 (to_read - first) else head,
      record r {
        read_pos = back r.cap (if ltb first to_read then to_read - first else r.read_pos + first);
        filled = r.filled - to_read;
      },
    )

-- `pop`: `none` while the ring is empty and nobody has called `interrupt`.
unfoldable pub pop : Ring → ℕ → Option (List ℕ × Ring)
pop r n =
    if r.interrupted
    then some ([], record r { interrupted = false })
    else if ltb 0 r.filled
    then some (copy_out r n)
    else none

unfoldable pub try_pop : Ring → ℕ → List ℕ × Ring
try_pop r n =
    if r.interrupted
    then ([], record r { interrupted = false })
    else if r.filled == 0
    then ([], r)
    else copy_out r n

unfoldable pub clear : Ring → Ring
clear r = record r { read_pos = 0; write_pos = 0; filled = 0 }

-- One call on the ring. A call that waits leaves the ring as it is.
pub step : Ring → Op → Reply × Ring
unfolding push pop try_pop interrupt clear
step r (pushes bytes) = elim (push r bytes) [ none ↦ (waits, r) | some r' ↦ (done [], r') ]
step r (pops n) = elim (pop r n) [ none ↦ (waits, r) | some (bytes, r') ↦ (done bytes, r') ]
step r (try_pops n) = let (bytes, r') = try_pop r n in (done bytes, r')
step r interrupts = (done [], interrupt r)
step r clears = (done [], clear r)

pub run : Ring → List Op → List Reply
unfolding step
run r [] = []
run r (op ∷ ops) = let (reply, r') = step r op in reply ∷ run r' ops
