-- ===== src/Common/Ring/Queue.antt =====
-- `AudioRingBuffer` refines a bounded FIFO of bytes.
use mathlib.Core.List.{append-nil}
use audiod.Prelude.{Bool-cases, inl, inr, sym, ap, ltb, ◌⊎◌}
use audiod.Common.Fifo
use audiod.Common.Fifo.{Fifo, Op, pushes, pops, try_pops, interrupts, clears, Reply, waits, done}
use audiod.Prelude.{take-nil, drop-nil}
use audiod.Prelude.{refl, take-tabulate, drop-tabulate, length-tabulate}
use audiod.Prelude.{
  ℕ, ◌+◌, ◌-◌, ◌≤◌, ◌<◌, min, ◌≡◌, refl, sym, ap, ap₂, ◌∙◌, ◌⊎◌, inl, inr, List, [], ◌∷◌, ◌++◌,
  arith, ltb, Bool-cases, length, get_or, take, drop, slice, blit, tabulate, length-take,
  length-drop, length-blit, length-tabulate, get_or-blit_in, get_or-blit_out, tabulate_ext,
  tabulate_self, tabulate-add, tabulate-slice, get_or-take, get_or-drop,
}
use audiod.Prelude.{ap₂, ◌∙◌}
use audiod.Common.Ring.{step, run, push, pop, try_pop, interrupt, clear}
use audiod.Common.Ring.{Ring, back, copy_in, push, copy_out, pop, try_pop, clear, interrupt}
use audiod.Common.Ring.Inv.{IsValid, copy_in-IsValid, copy_out-IsValid}

-- The byte that is `k` behind the oldest.
abbrev pub byte_at : Ring → ℕ → ℕ
byte_at r k = get_or r.buf (back r.cap (r.read_pos + k)) 0

-- The bytes held, oldest first.
abbrev pub contents : Ring → List ℕ
contents r = tabulate r.filled (byte_at r)

copy_in_old :
    (r : Ring) (bytes : List ℕ) (k : ℕ)
    → r.filled + length bytes ≤ r.cap
    → IsValid r
    → k < r.filled
    → byte_at (copy_in r bytes) k ≡ byte_at r k
unfolding copy_in
copy_in_old r bytes k h v p =
    let first = min (length bytes) (r.cap - r.write_pos) in
    let j = back r.cap (r.read_pos + k) in
    let head = blit r.buf r.write_pos (slice bytes 0 first) in
    ground (
      arith,
      length-take first bytes,
      length-drop first bytes,
      get_or-blit_out r.buf r.write_pos (slice bytes 0 first) j 0,
      get_or-blit_out head 0 (drop first bytes) j 0,
    )

copy_in_new :
    (r : Ring) (bytes : List ℕ) (k : ℕ)
    → r.filled + length bytes ≤ r.cap
    → IsValid r
    → k < length bytes
    → byte_at (copy_in r bytes) (r.filled + k) ≡ get_or bytes k 0
unfolding copy_in
copy_in_new r bytes k h v p =
    let first = min (length bytes) (r.cap - r.write_pos) in
    let j = back r.cap (r.read_pos + (r.filled + k)) in
    let head = blit r.buf r.write_pos (slice bytes 0 first) in
    ground (
      arith,
      length-take first bytes,
      length-drop first bytes,
      length-blit r.buf r.write_pos (slice bytes 0 first),
      get_or-take first bytes (j - r.write_pos) 0,
      get_or-drop first bytes j 0,
      get_or-blit_in r.buf r.write_pos (slice bytes 0 first) j 0,
      get_or-blit_out head 0 (drop first bytes) j 0,
      get_or-blit_in head 0 (drop first bytes) j 0,
    )

pub contents-copy_in :
    (r : Ring) (bytes : List ℕ)
    → r.filled + length bytes ≤ r.cap
    → IsValid r
    → contents (copy_in r bytes) ≡ contents r ++ bytes
unfolding copy_in
contents-copy_in r bytes h v =
    tabulate-add r.filled (length bytes) (byte_at (copy_in r bytes))
    ∙ ap₂ ◌++◌
        (tabulate_ext r.filled (byte_at (copy_in r bytes)) (byte_at r)
          (λ k p. copy_in_old r bytes k h v p))
        (tabulate_ext (length bytes) (λ k. byte_at (copy_in r bytes) (r.filled + k))
            (λ k. get_or bytes k 0) (λ k p. copy_in_new r bytes k h v p)
          ∙ tabulate_self bytes 0)

-- Reading `m` bytes round the end of the buffer takes two slices.
window_split :
    (buf : List ℕ) (cap pos first rest : ℕ)
    → length buf ≡ cap
    → pos + first ≤ cap
    → rest ≤ pos
    → (rest ≡ 0) ⊎ (pos + first ≡ cap)
    → tabulate (first + rest) (λ k. get_or buf (back cap (pos + k)) 0)
      ≡ slice buf pos first ++ slice buf 0 rest
window_split buf cap pos first rest len a b c =
    tabulate-add first rest (λ k. get_or buf (back cap (pos + k)) 0)
    ∙ ap₂ ◌++◌
        (tabulate_ext first (λ k. get_or buf (back cap (pos + k)) 0) (λ k. get_or buf (pos + k) 0)
            (λ k p. ap (λ j. get_or buf j 0) (ground arith))
          ∙ sym (tabulate-slice buf pos first 0 (omega arith)))
        (tabulate_ext rest (λ k. get_or buf (back cap (pos + (first + k))) 0)
            (λ k. get_or buf (0 + k) 0) (λ k p. ap (λ j. get_or buf j 0) (ground arith))
          ∙ sym (tabulate-slice buf 0 rest 0 (omega arith)))

-- The two slices that `copy_out` reads are the oldest bytes.
copy_out_bytes :
    (r : Ring) (n : ℕ) → IsValid r → (copy_out r n).0 ≡ tabulate (min n r.filled) (byte_at r)
unfolding copy_out
copy_out_bytes r n v =
    let m = min n r.filled in
    let first = min m (r.cap - r.read_pos) in
    let e : first + (m - first) ≡ m = omega arith in
    let w =
      window_split r.buf r.cap r.read_pos first (m - first) v.sized (omega arith) (omega arith)
        (omega arith) in
    elim (Bool-cases (ltb first m)) [
      | inl more ↦ ground (arith, w, e)
      | inr all ↦ ground (arith, w, e, append-nil (slice r.buf r.read_pos first))
    ]

copy_out_rest :
    (r : Ring) (n : ℕ)
    → IsValid r
    → contents (copy_out r n).1
      ≡ tabulate (r.filled - min n r.filled) (λ k. byte_at r (min n r.filled + k))
unfolding copy_out
copy_out_rest r n v =
    tabulate_ext (r.filled - min n r.filled) (byte_at (copy_out r n).1)
      (λ k. byte_at r (min n r.filled + k)) (λ k p. ground arith)

-- `copy_out` gives the oldest `n` bytes, or all of them, and keeps the others.
pub copy_out_lem :
    (r : Ring) (n : ℕ)
    → IsValid r
    → ((copy_out r n).0 ≡ take n (contents r)) × (contents (copy_out r n).1 ≡ drop n (contents r))
copy_out_lem r n v = (
  copy_out_bytes r n v ∙ sym (take-tabulate n r.filled (byte_at r)),
  copy_out_rest r n v ∙ sym (drop-tabulate n r.filled (byte_at r)),
)

-- The ring as its client sees it.
abbrev pub view : Ring → Fifo
view r = record { cap = r.cap; items = contents r; interrupted = r.interrupted }

-- The flags and the capacity, which the two copies leave alone.
copy_in_frame :
    (r : Ring) (bytes : List ℕ)
    → ((copy_in r bytes).cap ≡ r.cap) × ((copy_in r bytes).interrupted ≡ r.interrupted)
unfolding copy_in
copy_in_frame r bytes = (refl, refl)

pub copy_out_frame :
    (r : Ring) (n : ℕ)
    → ((copy_out r n).1.cap ≡ r.cap) × ((copy_out r n).1.interrupted ≡ r.interrupted)
unfolding copy_out
copy_out_frame r n = (refl, refl)

-- A valid ring answers every call as the queue of its bytes does, goes on to hold what that queue
-- holds, and stays valid.
step_refines :
    (r : Ring) (op : Op)
    → IsValid r
    → let (reply, r') = step r op in
      let (answer, q) = Fifo.step (view r) op in (reply ≡ answer) × (view r' ≡ q) × IsValid r'
unfolding step push pop try_pop interrupt clear Fifo.step
step_refines r (pushes []) v = ground (arith, append-nil (contents r))
step_refines r (pushes (b ∷ bytes)) v = ground (
  arith,
  length-tabulate r.filled (byte_at r),
  contents-copy_in r (b ∷ bytes),
  copy_in_frame r (b ∷ bytes),
  copy_in-IsValid r (b ∷ bytes),
)
step_refines r (pops n) v = ground (
  arith,
  length-tabulate r.filled (byte_at r),
  copy_out_lem r n,
  copy_out_frame r n,
  copy_out-IsValid r n,
)
step_refines r (try_pops n) v = ground (
  arith,
  take-nil {A = ℕ} n,
  drop-nil {A = ℕ} n,
  copy_out_lem r n,
  copy_out_frame r n,
  copy_out-IsValid r n,
)
step_refines r interrupts v = ground arith
step_refines r clears v = ground arith

-- On a valid ring buffer, every sequence of calls gets the replies that the bounded queue of its
-- bytes gives.
pub run_refines : (ops : List Op) (r : Ring) → IsValid r → run r ops ≡ Fifo.run (view r) ops
unfolding run Fifo.run
run_refines [] r v = refl
run_refines (op ∷ ops) r v =
    let s = step_refines r op v in
    ap₂ ◌∷◌ s.0 (run_refines ops (step r op).1 s.2 ∙ ap (λ q. Fifo.run q ops) s.1)
