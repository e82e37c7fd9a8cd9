-- ===== src/Hda/Device.antt =====
-- The registers of the controller, which hda/src/mmio.rs maps: a device outside the program, with
-- its own state and no laws. Offsets are from the start of the mapping; the names are those of
-- hda/src/regs.rs.
use audiod.Prelude.{ℕ, ◌-◌, Bool, not, ◌==◌, bit_and}

pub record Device : Type 1 where
  pub D : Type 0
  pub read8 : D → ℕ → ℕ × D
  pub read16 : D → ℕ → ℕ × D
  pub read32 : D → ℕ → ℕ × D
  pub write8 : D → ℕ → ℕ → D
  pub write16 : D → ℕ → ℕ → D
  pub write32 : D → ℕ → ℕ → D

-- `v & !mask` on 32 bits.
abbrev pub clear_bits : ℕ → ℕ → ℕ
clear_bits v mask = bit_and v (0xffffffff - mask)

-- The levels of the log that are on. A line that is written out reads the registers it names.
pub record Log : Type 0 where
  pub info : Bool
  pub debug : Bool

-- `v & mask != 0`
abbrev pub has_bits : ℕ → ℕ → Bool
has_bits v mask = not (bit_and v mask == 0)

abbrev pub intctl : ℕ
intctl = 0x20

abbrev pub sd_ctl : ℕ
sd_ctl = 0x00

abbrev pub sd_sts : ℕ
sd_sts = 0x03

abbrev pub sd_lpib : ℕ
sd_lpib = 0x04

abbrev pub sd_cbl : ℕ
sd_cbl = 0x08

abbrev pub sd_lvi : ℕ
sd_lvi = 0x0c

abbrev pub sd_format : ℕ
sd_format = 0x12

abbrev pub sd_bdlpl : ℕ
sd_bdlpl = 0x18

abbrev pub sd_bdlpu : ℕ
sd_bdlpu = 0x1c

abbrev pub stream_reset : ℕ
stream_reset = 0x01

abbrev pub dma_start : ℕ
dma_start = 0x02

-- INT_DESC_ERR | INT_FIFO_ERR | INT_COMPLETE
abbrev pub int_mask : ℕ
int_mask = 0x1c
