-- ===== src/Hda/Stream.antt =====
-- hda/src/stream.rs: the playback stream and its ring in memory that the controller reads. The
-- registers of the stream begin at `base`.
pub mod Queue
use audiod.Prelude.{
  ℕ, zero, suc, ◌+◌, ◌-◌, ◌*◌, ◌/◌, ◌%◌, ◌^◌, ◌≤◌, ◌<◌, min, max, ◌≡◌, refl, sym, ap, ap₂, ◌∙◌, ◌≢◌,
  ◌↔◌, ◌⊎◌, inl, inr, Bool, true, false, not, ◌&&◌, ◌||◌, Option, none, some, List, [], ◌∷◌, ◌++◌,
  map, arith, ltb, leb, ◌==◌, if◌then◌else◌, ltb→lt, lt→ltb, ==_iff, Bool-cases, Option-cases,
  length, get_or, take, drop, replicate, slice, blit, tabulate, length-append, length-replicate,
  length-take, length-drop, take-append-drop, length-blit, length-tabulate, get_or-blit_in,
  get_or-blit_out, tabulate_ext, tabulate_self, tabulate-add, tabulate-slice, get_or-take,
  get_or-drop, concat, take-nil, drop-nil, take-tabulate, drop-tabulate, bit_and, bit_or, ◌>>=◌,
}
use audiod.Hda.Device
use audiod.Hda.Device.{
  Device, Log, clear_bits, has_bits, intctl, sd_ctl, sd_sts, sd_lpib, sd_cbl, sd_lvi, sd_format,
  sd_bdlpl, sd_bdlpu, stream_reset, dma_start, int_mask,
}
use audiod.Hda.Dma
use audiod.Hda.Dma.{DmaBuffer}
use audiod.Hda.Rate.{format_val}

abbrev pub ring_pages : ℕ
ring_pages = 64

abbrev pub ring_size : ℕ
ring_size = 262144

pub record Stream : Type 0 where
  pub ring : DmaBuffer
  pub bdl : DmaBuffer
  pub entries : ℕ
  pub write_pos : ℕ
  pub written : ℕ

-- `delay_bytes`, with the position of the DMA engine as read.
unfoldable pub delay_bytes : Stream → ℕ → ℕ
delay_bytes s rd = if leb rd s.write_pos then s.write_pos - rd else ring_size - rd + s.write_pos

unfoldable pub free_space : Stream → ℕ → ℕ
free_space s rd = if leb rd s.write_pos then ring_size - (s.write_pos - rd) else rd - s.write_pos

-- The one or two copies of `write`.
unfoldable pub store : Stream → List ℕ → Option DmaBuffer
unfolding Dma.write
store s part =
    let first = min (length part) (ring_size - s.write_pos) in
    let head = Dma.write s.ring s.write_pos (slice part 0 first) in
    if ltb first (length part) then head >>= (λ b. Dma.write b 0 (drop first part)) else head

-- `write` where the DMA engine stands at `rd`: how much was taken, and the stream.
unfoldable pub write_at : Stream → ℕ → List ℕ → Option (ℕ × Stream)
unfolding free_space store
write_at s rd samples =
    let n = min (length samples) (free_space s rd) in
    if n == 0 then some (0, s) else do
      ring ← store s (take n samples)
      some (
        n,
        record s {
          ring = ring;
          write_pos = (s.write_pos + n) % ring_size;
          written = s.write_pos + n;
        },
      )

unfoldable pub clear : Stream → Stream
clear s = record s { write_pos = 0 }

unfoldable pub zero_ring : Stream → Stream
unfolding Dma.zero_bytes
zero_ring s = record s { ring = Dma.zero_bytes s.ring }

module _ (bus : Device) where
  open bus use {D, read8, read32, write8, write16, write32}

  -- `lpib`
  unfoldable pub lpib : ℕ → D → ℕ × D
  lpib base d = let (v, d') = read32 d (base + sd_lpib) in (v % ring_size, d')

  unfoldable pub write : ℕ → Stream → List ℕ → D → Option (ℕ × Stream) × D
  unfolding lpib write_at
  write base s samples d = let (rd, d') = lpib base d in (write_at s rd samples, d')

  unfoldable pub setup : ℕ → ℕ → ℕ → Stream → D → Option (Stream × D)
  unfolding Dma.fill Dma.toaddr
  setup base tag rate s d = do
    filled ← Dma.fill s.bdl s.ring ring_pages true
    let (entries, bdl) = filled
    pa ← Dma.toaddr bdl 0
    let ctl = bit_and (tag * 2 ^ 20) 0xf00000
    let d1 = write32 d (base + sd_ctl) ctl
    let d2 = write32 d1 (base + sd_cbl) ring_size
    let d3 = write16 d2 (base + sd_format) (format_val rate)
    let d4 = write16 d3 (base + sd_lvi) ((entries - 1) % 2 ^ 16)
    let d5 = write32 d4 (base + sd_bdlpl) (pa % 2 ^ 32)
    let d6 = write32 d5 (base + sd_bdlpu) (pa / 2 ^ 32 % 2 ^ 32)
    let d7 = write32 d6 (base + sd_ctl) (bit_or ctl int_mask)
    some (record s { bdl = bdl; entries = entries }, d7)

  unfoldable pub status : ℕ → D → ℕ × D
  status base d = read8 d (base + sd_sts)

  -- The line of the log at the end of `start`.
  unfoldable pub log_start : Log → ℕ → D → D
  log_start log base d =
      if log.info
      then (let d1 = (read32 d (base + sd_ctl)).1 in
          let d2 = (read8 d1 (base + sd_sts)).1 in (read32 d2 (base + sd_lpib)).1)
      else d

  unfoldable pub start : Log → ℕ → ℕ → D → D
  unfolding log_start
  start log base sd_index d =
      let (int, d1) = read32 d intctl in
      let d2 = write32 d1 intctl (bit_or int (2 ^ sd_index)) in
      let (ctl, d3) = read32 d2 (base + sd_ctl) in
      let d4 = write32 d3 (base + sd_ctl) (bit_or ctl int_mask) in
      let (low, d5) = read8 d4 (base + sd_ctl) in
      log_start log base (write8 d5 (base + sd_ctl) (bit_or low dma_start))

  unfoldable pub stop : ℕ → ℕ → D → D
  stop base sd_index d =
      let (ctl, d1) = read32 d (base + sd_ctl) in
      let d2 = write32 d1 (base + sd_ctl) (clear_bits ctl (bit_or dma_start int_mask)) in
      let d3 = write8 d2 (base + sd_sts) int_mask in
      let (int, d4) = read32 d3 intctl in write32 d4 intctl (clear_bits int (2 ^ sd_index))

  -- At most `n` reads of the control register, until the reset bit is `wanted`.
  unfoldable pub await_reset : ℕ → Bool → ℕ → D → D
  await_reset base wanted zero d = d
  await_reset base wanted (suc n) d =
      let (v, d') = read32 d (base + sd_ctl) in
      elim (has_bits v stream_reset) [
        | true ↦ if wanted then d' else await_reset base wanted n d'
        | false ↦ if wanted then await_reset base wanted n d' else d'
      ]

  unfoldable pub srst : ℕ → D → D
  unfolding await_reset
  srst base d =
      let d1 = await_reset base true 100 (write32 d (base + sd_ctl) stream_reset) in
      await_reset base false 100 (write32 d1 (base + sd_ctl) 0)
