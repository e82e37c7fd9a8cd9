-- ===== src/Hda/Pcicfg.antt =====
-- hda/src/pcicfg.rs: the configuration space of the controller's slot, as the bytes of its file. An
-- access beyond the end of the file is an error.
use audiod.Prelude.{
  ℕ, ◌+◌, ◌-◌, Bool, true, false, List, [], ◌∷◌, leb, ◌==◌, if◌then◌else◌, length, get_or, blit,
  bit_and, bit_or,
}
use audiod.Prelude.Bytes.{le_u16, u16_le}
use audiod.Hda.Corb.{other}
use audiod.Hda.Io.{Io, ◌>>=◌, ◌>>◌, give, fail}

abbrev pub pci_vendor_off : ℕ
pci_vendor_off = 0x00

abbrev pub pci_device_off : ℕ
pci_device_off = 0x02

abbrev pub pci_cmd_off : ℕ
pci_cmd_off = 0x04

abbrev pub tcsel_off : ℕ
tcsel_off = 0x44

abbrev pub devc_off : ℕ
devc_off = 0x78

abbrev pub devc_nosnoop_bit : ℕ
devc_nosnoop_bit = 0x0800

-- PCI_CMD_MEM_SPACE | PCI_CMD_BUS_MASTER
abbrev pub pci_cmd_enable : ℕ
pci_cmd_enable = 6

unfoldable pub read_u16 : ℕ → Io (List ℕ) ℕ
read_u16 off f = if leb (off + 2) (length f) then give (le_u16 f off) f else fail other f

unfoldable pub write_u16 : ℕ → ℕ → Io (List ℕ) (Unit {0})
write_u16 off v f =
    if leb (off + 2) (length f) then give tt (blit f off (u16_le v)) else fail other f

unfoldable pub read_u8 : ℕ → Io (List ℕ) ℕ
read_u8 off f = if leb (off + 1) (length f) then give (get_or f off 0) f else fail other f

unfoldable pub write_u8 : ℕ → ℕ → Io (List ℕ) (Unit {0})
write_u8 off v f = if leb (off + 1) (length f) then give tt (blit f off (v ∷ [])) else fail other f

unfoldable pub vendor_device : Io (List ℕ) (ℕ × ℕ)
unfolding read_u16
vendor_device = do
  vendor ← read_u16 pci_vendor_off
  device ← read_u16 pci_device_off
  give (vendor, device)

-- Traffic class 0, and snooping unless it is on already.
unfoldable pub set_snoop : Io (List ℕ) (Unit {0})
unfolding read_u8 write_u8 read_u16 write_u16
set_snoop = do
  t ← read_u8 tcsel_off
  write_u8 tcsel_off (bit_and t 0xf8)
  s ← read_u16 devc_off
  elim (bit_and s devc_nosnoop_bit == 0) [
    | true ↦ give tt
    | false ↦ write_u16 devc_off (bit_and s (0xffff - devc_nosnoop_bit))
  ]

-- Whether it had to be enabled.
unfoldable pub set_master : Io (List ℕ) Bool
unfolding read_u16 write_u16
set_master = do
  cmd ← read_u16 pci_cmd_off
  if bit_and cmd pci_cmd_enable == pci_cmd_enable
      then give false
      else do write_u16 pci_cmd_off (bit_or cmd pci_cmd_enable); give true
