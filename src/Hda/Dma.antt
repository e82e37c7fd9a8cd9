-- ===== src/Hda/Dma.antt =====
-- hda/src/pagemap.rs and hda/src/bdl.rs: memory that the controller reads, and the list of buffer
-- descriptors. `none` is a failed assertion, on which the source panics.
pub mod Descriptors
use audiod.Prelude.{
  ℕ, zero, suc, ◌+◌, ◌-◌, ◌*◌, ◌/◌, ◌%◌, ◌^◌, ◌≤◌, ◌<◌, min, max, ◌≡◌, refl, sym, ap, ap₂, ◌∙◌, ◌≢◌,
  ◌↔◌, ◌⊎◌, inl, inr, Bool, true, false, not, ◌&&◌, ◌||◌, Option, none, some, List, [], ◌∷◌, ◌++◌,
  map, arith, ltb, leb, ◌==◌, if◌then◌else◌, ltb→lt, lt→ltb, ==_iff, Bool-cases, Option-cases,
  length, get_or, take, drop, replicate, slice, blit, tabulate, length-append, length-replicate,
  length-take, length-drop, take-append-drop, length-blit, length-tabulate, get_or-blit_in,
  get_or-blit_out, tabulate_ext, tabulate_self, tabulate-add, tabulate-slice, get_or-take,
  get_or-drop, concat, take-nil, drop-nil, take-tabulate, drop-tabulate, bit_and, bit_or, ◌>>=◌,
}
use audiod.Prelude.Bytes.{u32_le}

abbrev pub page_size : ℕ
page_size = 4096

-- The bytes, and the physical address of each page.
pub record DmaBuffer : Type 0 where
  pub bytes : List ℕ
  pub phys : List ℕ

abbrev pub size : DmaBuffer → ℕ
size b = length b.bytes

-- `(v + a - 1) & !(a - 1)` for a power of two
abbrev pub align_up : ℕ → ℕ → ℕ
align_up v a = (v + a - 1) / a * a

abbrev pub out_of_range : List ℕ → Bool
out_of_range [] = false
out_of_range (p ∷ ps) = leb (128 * 2 ^ 40) p || out_of_range ps

-- `DmaBuffer::new` where the mapping succeeds: zeroed pages, at the addresses that the system gave
-- them. An address of 128 TiB or more is refused.
unfoldable pub new : ℕ → (ℕ → ℕ) → Option DmaBuffer
new n page_at =
    let len = align_up n page_size in
    let phys = tabulate (len / page_size) page_at in
    if out_of_range phys then none else some (record { bytes = replicate len 0; phys = phys })

unfoldable pub toaddr : DmaBuffer → ℕ → Option ℕ
toaddr b off =
    if ltb off (size b) && ltb (off / page_size) (length b.phys)
    then some (get_or b.phys (off / page_size) 0 + off % page_size)
    else none

-- Each page has its address, as `new` gives it.
abbrev pub HasPages : DmaBuffer → Type 0
HasPages b = size b ≤ length b.phys * page_size

unfoldable pub write : DmaBuffer → ℕ → List ℕ → Option DmaBuffer
write b off bytes =
    if leb (off + length bytes) (size b)
    then some (record b { bytes = blit b.bytes off bytes })
    else none

-- `read` into a buffer of `n` bytes.
unfoldable pub read : DmaBuffer → ℕ → ℕ → Option (List ℕ)
read b off n = if leb (off + n) (size b) then some (slice b.bytes off n) else none

unfoldable pub zero_bytes : DmaBuffer → DmaBuffer
zero_bytes b = record b { bytes = replicate (size b) 0 }

abbrev pub entry_size : ℕ
entry_size = 16

unfoldable pub make_entry : ℕ → ℕ → ℕ → List ℕ
make_entry addr len ioc =
    u32_le (addr % 2 ^ 32) ++ u32_le (addr / 2 ^ 32 % 2 ^ 32) ++ u32_le len ++ u32_le ioc

-- The loop of `fill` from entry `i` on, over the `left` that are to come.
unfoldable pub fill_from : DmaBuffer → Bool → ℕ → ℕ → DmaBuffer → Option DmaBuffer
fill_from ring ioc_last zero i bdl = some bdl
fill_from ring ioc_last (suc left) i bdl = do
  pa ← toaddr ring (i * page_size)
  let ioc = if ioc_last && (left == 0) then 1 else 0
  bdl' ← write bdl (i * entry_size) (make_entry pa page_size ioc)
  fill_from ring ioc_last left (i + 1) bdl'

unfoldable pub fill : DmaBuffer → DmaBuffer → ℕ → Bool → Option (ℕ × DmaBuffer)
fill bdl ring count ioc_last =
    let entries = min (min count (size bdl / entry_size)) (size ring / page_size) in
    do bdl' ← fill_from ring ioc_last entries 0 bdl; some (entries, bdl')
