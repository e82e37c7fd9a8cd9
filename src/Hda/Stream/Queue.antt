-- ===== src/Hda/Stream/Queue.antt =====
-- The DMA ring as a queue of the bytes that are yet to be played.
use audiod.Prelude.{
  ℕ, ◌+◌, ◌-◌, ◌%◌, ◌≤◌, ◌<◌, min, ◌≡◌, refl, sym, ap, ◌∙◌, inl, inr, false, some, List, [], ◌∷◌,
  ◌++◌, arith, ltb, ◌==◌, Bool-cases, length, take, drop, slice, blit, length-take, length-drop,
  length-blit,
}
use audiod.Common.Ring.{Ring, copy_in}
use mathlib.Core.List.{append-nil}
use audiod.Common.Ring.Inv
use audiod.Common.Ring.Inv.{copy_in-IsValid}
use audiod.Common.Ring.Queue.{contents, contents-copy_in}
use audiod.Hda.Dma
use audiod.Hda.Dma.{DmaBuffer}
use audiod.Hda.Stream.{ring_size, Stream, delay_bytes, free_space, store, write_at}

-- The ring has its full size and the writer stands in it.
pub record IsValid (s : Stream) : Type 0 where
  pub sized : length s.ring.bytes ≡ ring_size
  pub inside : s.write_pos < ring_size

-- The stream as a ring whose reader is the DMA engine at `rd`.
abbrev pub ring_of : Stream → ℕ → Ring
ring_of s rd = record {
  cap = ring_size;
  buf = s.ring.bytes;
  read_pos = rd;
  write_pos = s.write_pos;
  filled = delay_bytes s rd;
  interrupted = false;
}

-- The bytes from the DMA engine's position up to the writer's.
abbrev pub pending : Stream → ℕ → List ℕ
pending s rd = contents (ring_of s rd)

ring_of-IsValid : (s : Stream) (rd : ℕ) → IsValid s → rd < ring_size → Inv.IsValid (ring_of s rd)
unfolding delay_bytes
ring_of-IsValid s rd v h = ground arith

pub delay-add-free :
    (s : Stream) (rd : ℕ)
    → s.write_pos < ring_size
    → rd < ring_size
    → delay_bytes s rd + free_space s rd ≡ ring_size
unfolding delay_bytes free_space
delay-add-free s rd p q = ground arith

write_in :
    (b : DmaBuffer) (off : ℕ) (part : List ℕ)
    → off + length part ≤ length b.bytes
    → Dma.write b off part ≡ some (record b { bytes = blit b.bytes off part })
unfolding Dma.write
write_in b off part h = ground arith

-- The copies stay in the buffer, and are those of a ring.
store_lem :
    (s : Stream) (rd : ℕ) (part : List ℕ)
    → IsValid s
    → length part ≤ ring_size
    → store s part ≡ some (record s.ring { bytes = (copy_in (ring_of s rd) part).buf })
unfolding store copy_in
store_lem s rd part v h =
    let first = min (length part) (ring_size - s.write_pos) in
    let head = slice part 0 first in
    let b = record s.ring { bytes = blit s.ring.bytes s.write_pos head } in
    let l = length-take first part in
    let e0 = write_in s.ring s.write_pos head (omega (arith, l, v.sized, v.inside)) in
    let e1 =
      write_in b 0 (drop first part) (
        omega
          (arith, length-drop first part, length-blit s.ring.bytes s.write_pos head, v.sized)) in
    rw (e0, store)
      (rw (e1, store)
        (elim (Bool-cases (ltb first (length part))) [ inl t ↦ rw t refl | inr t ↦ rw t refl ]))

take_all : (xs : List ℕ) → take (length xs) xs ≡ xs
take_all [] = refl
take_all (x ∷ xs) = ap (◌∷◌ x) (take_all xs)

-- The stream after a write of all of `samples`.
abbrev fed : Stream → ℕ → List ℕ → Stream
fed s rd samples = record s {
  ring = record s.ring { bytes = (copy_in (ring_of s rd) samples).buf };
  write_pos = (s.write_pos + length samples) % ring_size;
  written = s.write_pos + length samples;
}

write_some :
    (s : Stream) (rd : ℕ) (samples : List ℕ)
    → IsValid s
    → rd < ring_size
    → 0 < length samples
    → length samples ≤ free_space s rd
    → write_at s rd samples ≡ some (length samples, fed s rd samples)
unfolding write_at
write_some s rd samples v h p q =
    let n : min (length samples) (free_space s rd) ≡ length samples = omega arith in
    let z : (length samples == 0) ≡ false = ground arith in
    let b = delay-add-free s rd v.inside h in
    rw (n, take_all samples, z, store_lem s rd samples v (omega arith), write_at) refl

write_none : (s : Stream) (rd : ℕ) → write_at s rd [] ≡ some (0, s)
unfolding write_at
write_none s rd = let e : min 0 (free_space s rd) ≡ 0 = omega arith in rw (e, write_at) refl

fed-IsValid :
    (s : Stream) (rd : ℕ) (samples : List ℕ)
    → IsValid s
    → rd < ring_size
    → length samples ≤ free_space s rd
    → IsValid (fed s rd samples)
unfolding copy_in
fed-IsValid s rd samples v h q = record {
  sized =
      (copy_in-IsValid (ring_of s rd) samples (omega (arith, delay-add-free s rd v.inside h))
        (ring_of-IsValid s rd v h)).sized;
  inside = omega arith;
}

fed-ring_of :
    (s : Stream) (rd : ℕ) (samples : List ℕ)
    → IsValid s
    → rd < ring_size
    → length samples < free_space s rd
    → ring_of (fed s rd samples) rd ≡ copy_in (ring_of s rd) samples
unfolding copy_in delay_bytes free_space
fed-ring_of s rd samples v h q =
    ground (arith, length-drop (min (length samples) (ring_size - s.write_pos)) samples)

-- If a valid stream is offered less than the room that is left, it takes all of it without a
-- failed assertion, stays valid, and queues it behind the bytes that are yet to be played.
pub write_at_lem :
    (s : Stream) (rd : ℕ) (samples : List ℕ)
    → IsValid s
    → rd < ring_size
    → length samples < free_space s rd
    → (s' : Stream) × (write_at s rd samples ≡ some (length samples, s'))
      × IsValid s'
      × (pending s' rd ≡ pending s rd ++ samples)
write_at_lem s rd [] v h q = (s, write_none s rd, v, sym (append-nil (pending s rd)))
write_at_lem s rd (x ∷ xs) v h q =
    let samples = x ∷ xs in
    (
      fed s rd samples,
      write_some s rd samples v h (omega arith) (omega arith),
      fed-IsValid s rd samples v h (omega arith),
      ap contents (fed-ring_of s rd samples v h q)
          ∙ contents-copy_in (ring_of s rd) samples (omega (arith, delay-add-free s rd v.inside h))
              (ring_of-IsValid s rd v h),
    )

-- If a valid stream has room and is offered exactly that much, it takes all of it, and then counts
-- as empty: its delay is 0 and the whole ring is free.
pub write_at_full :
    (s : Stream) (rd : ℕ) (samples : List ℕ)
    → IsValid s
    → rd < ring_size
    → 0 < free_space s rd
    → length samples ≡ free_space s rd
    → (s' : Stream) × (write_at s rd samples ≡ some (length samples, s'))
      × (delay_bytes s' rd ≡ 0)
      × (free_space s' rd ≡ ring_size)
unfolding delay_bytes free_space
write_at_full s rd samples v h p q = (
  fed s rd samples,
  write_some s rd samples v h (omega arith) (omega arith),
  ground (arith, v.inside),
  ground (arith, v.inside),
)
