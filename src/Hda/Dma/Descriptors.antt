-- ===== src/Hda/Dma/Descriptors.antt =====
-- What `fill` leaves in the list of buffer descriptors.
use audiod.Prelude.{
  ℕ, zero, suc, ◌+◌, ◌*◌, ◌/◌, ◌%◌, ◌≤◌, ◌<◌, min, ◌≡◌, refl, sym, ap, ◌∙◌, Bool, true, ◌&&◌, some,
  List, [], ◌∷◌, ◌++◌, arith, ltb, leb, ◌==◌, if◌then◌else◌, lt→ltb, length, get_or, blit,
  length-blit,
}
use audiod.Hda.Dma.{DmaBuffer, HasPages, size, toaddr, write, make_entry, fill_from, fill}

blit-blit {ℓ} :
    {A : Type ℓ} (xs : List A) (i : ℕ) (us vs : List A)
    → blit (blit xs i us) (i + length us) vs ≡ blit xs i (us ++ vs)
blit-blit [] i us vs = refl
blit-blit (x ∷ xs) zero [] vs = let e : 0 + 0 ≡ 0 = omega arith in rw e refl
blit-blit (x ∷ xs) zero (a ∷ us) vs =
    let e : 0 + suc (length us) ≡ suc (0 + length us) = omega arith in
    rw e (ap (◌∷◌ a) (blit-blit xs zero us vs))
blit-blit (x ∷ xs) (suc i) us vs =
    let e : suc i + length us ≡ suc (i + length us) = omega arith in
    rw e (ap (◌∷◌ x) (blit-blit xs i us vs))

blit-nil {ℓ} : {A : Type ℓ} (xs : List A) (i : ℕ) → blit xs i [] ≡ xs
blit-nil [] i = refl
blit-nil (x ∷ xs) zero = refl
blit-nil (x ∷ xs) (suc i) = ap (◌∷◌ x) (blit-nil xs i)

-- Entry `i` of `last`: the page's address, its size, and the interrupt flag in the last entry.
abbrev pub entry_of : DmaBuffer → Bool → ℕ → ℕ → List ℕ
entry_of ring ioc_last n i =
    make_entry (get_or ring.phys i 0) 4096 (if ioc_last && (i + 1 == n) then 1 else 0)

-- The entries from `i` on, over the `left` that are to come.
abbrev pub entries_from : DmaBuffer → Bool → ℕ → ℕ → ℕ → List ℕ
entries_from ring ioc_last n zero i = []
entries_from ring ioc_last n (suc left) i =
    entry_of ring ioc_last n i ++ entries_from ring ioc_last n left (i + 1)

length-entry : (addr len ioc : ℕ) → length (make_entry addr len ioc) ≡ 16
unfolding make_entry
length-entry addr len ioc = refl

toaddr-page :
    (ring : DmaBuffer) (i : ℕ)
    → i * 4096 < size ring
    → HasPages ring
    → toaddr ring (i * 4096) ≡ some (get_or ring.phys i 0)
unfolding toaddr
toaddr-page ring i h p =
    let e : i * 4096 / 4096 ≡ i = omega arith in
    let z : get_or ring.phys i 0 + i * 4096 % 4096 ≡ get_or ring.phys i 0 = omega arith in
    let in_pages : ltb i (length ring.phys) ≡ true = lt→ltb i (length ring.phys) (omega arith) in
    rw (lt→ltb (i * 4096) (size ring) h, e, in_pages, z) refl

write_in :
    (bdl : DmaBuffer) (i addr ioc : ℕ)
    → (i + 1) * 16 ≤ size bdl
    → write bdl (i * 16) (make_entry addr 4096 ioc)
      ≡ some (record bdl { bytes = blit bdl.bytes (i * 16) (make_entry addr 4096 ioc) })
unfolding write
write_in bdl i addr ioc h =
    let l = length-entry addr 4096 ioc in
    let e : leb (i * 16 + length (make_entry addr 4096 ioc)) (size bdl) ≡ true =
      ground (arith, l) in
    rw e refl

last_flag : (left i n : ℕ) → i + suc left ≡ n → (left == 0) ≡ (i + 1 == n)
last_flag left i n e = ground arith

fill_from_lem :
    (ring : DmaBuffer) (ioc_last : Bool) (n left i : ℕ) (bdl : DmaBuffer)
    → i + left ≡ n
    → n * 4096 ≤ size ring
    → n * 16 ≤ size bdl
    → HasPages ring
    → fill_from ring ioc_last left i bdl
      ≡ some (record bdl { bytes = blit bdl.bytes (i * 16) (entries_from ring ioc_last n left i) })
unfolding fill_from
fill_from_lem ring ioc_last n zero i bdl e r b p =
    ap (λ (l : List ℕ). some (record bdl { bytes = l })) (sym (blit-nil bdl.bytes (i * 16)))
fill_from_lem ring ioc_last n (suc left) i bdl e r b p =
    let entry = entry_of ring ioc_last n i in
    let more = entries_from ring ioc_last n left (i + 1) in
    let bdl1 : DmaBuffer = record bdl { bytes = blit bdl.bytes (i * 16) entry } in
    let l : (i + 1) * 16 ≡ i * 16 + length entry = omega (
      arith,
      length-entry (get_or ring.phys i 0) 4096 (if ioc_last && (i + 1 == n) then 1 else 0),
    ) in
    let rest =
      fill_from_lem ring ioc_last n left (i + 1) bdl1 (omega arith) r
        (omega (arith, length-blit bdl.bytes (i * 16) entry)) p in
    let joined : blit bdl1.bytes ((i + 1) * 16) more ≡ blit bdl.bytes (i * 16) (entry ++ more) =
      rw l (blit-blit bdl.bytes (i * 16) entry more) in
    rw (toaddr-page ring i (omega arith) p, fill_from)
      (rw (last_flag left i n e) (
        rw
          (
            write_in bdl i (get_or ring.phys i 0) (if ioc_last && (i + 1 == n) then 1 else 0)
                (omega arith),
            fill_from,
          )
          (rest ∙ ap (λ (bytes : List ℕ). some (record bdl { bytes = bytes })) joined)))

-- With a ring that has an address for each of its pages, filling a list of buffer descriptors
-- fails no assertion, and writes from its start, in order, an entry for each of the first pages of
-- the ring, with the page's physical address and size and the interrupt flag in the last one if it
-- is asked for: as many as are asked for, as the list has room for and as the ring has pages,
-- whichever is least.
pub fill_lem :
    (bdl ring : DmaBuffer) (count : ℕ) (ioc_last : Bool)
    → HasPages ring
    → let n = min (min count (size bdl / 16)) (size ring / 4096) in
      fill bdl ring count ioc_last
      ≡ some (n, record bdl { bytes = blit bdl.bytes 0 (entries_from ring ioc_last n n 0) })
unfolding fill
fill_lem bdl ring count ioc_last p =
    let n = min (min count (size bdl / 16)) (size ring / 4096) in
    rw (fill_from_lem ring ioc_last n n 0 bdl (omega arith) (omega arith) (omega arith) p, fill)
      refl
