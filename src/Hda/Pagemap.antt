-- ===== src/Hda/Pagemap.antt =====
-- hda/src/pagemap.rs: the physical address of a page, from what the system shows of it.
use audiod.Prelude.{
  ℕ, ◌+◌, ◌*◌, ◌/◌, ◌%◌, ◌^◌, Option, none, some, List, ◌==◌, if◌then◌else◌, ◌>>=◌,
}
use audiod.Prelude.Bytes.{le_u32}

-- The entry of a page: present in bit 63, the frame number in the low 55 bits.
unfoldable pub frame_of : ℕ → Option ℕ
frame_of entry = if entry / 2 ^ 63 % 2 == 0 then none else some (entry % 2 ^ 55 * 2 ^ 12)

-- `vaddr_to_phys`, with the eight bytes that the system's table has at an offset.
unfoldable pub vaddr_to_phys : (ℕ → Option (List ℕ)) → ℕ → Option ℕ
unfolding frame_of
vaddr_to_phys pagemap vaddr = do
  ent ← pagemap (vaddr / 2 ^ 12 * 8)
  frame_of (le_u32 ent 0 + 2 ^ 32 * le_u32 ent 4)
