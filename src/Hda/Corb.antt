-- ===== src/Hda/Corb.antt =====
-- hda/src/corb.rs: the rings for verbs to the codecs and for their responses. The entries that the
-- controller writes into the shared page are an argument of each read; the passing of time is the
-- number of polls that the deadline leaves. `none` is a failed assertion.
pub mod Drain
pub mod Init
pub mod Sound
use audiod.Prelude.{
  ℕ, zero, suc, ◌+◌, ◌*◌, ◌%◌, ◌^◌, true, false, Option, none, some, List, [], ◌∷◌, ◌++◌, leb, ◌==◌,
  if◌then◌else◌, bit_and, ◌>>=◌,
}
use audiod.Prelude.Bytes.{u32_le}
use audiod.Hda.Device.{Device, has_bits}
use audiod.Hda.Dma
use audiod.Hda.Dma.{DmaBuffer}

abbrev pub corbwp : ℕ
corbwp = 0x48

abbrev pub corbrp : ℕ
corbrp = 0x4a

abbrev pub corbctl : ℕ
corbctl = 0x4c

abbrev pub rirbwp : ℕ
rirbwp = 0x58

abbrev pub rirbctl : ℕ
rirbctl = 0x5c

abbrev pub rirb_ex_unsol : ℕ
rirb_ex_unsol = 0x10

abbrev pub rirb_ex_cad_mask : ℕ
rirb_ex_cad_mask = 0xf

-- `io::ErrorKind`, as far as it is told apart.
pub data Error : Type 0 where
  would_block timed_out unsupported other : Error

pub data Result (A : Type 0) : Type 0 where
  ok : A → Result A
  err : Error → Result A

-- The verdict on a drained entry.
pub data Route : Type 0 where
  solicited : ℕ → Route
  unsolicited : ℕ → ℕ → Route
  foreign : ℕ → ℕ → Route

pub record CorbRing : Type 0 where
  pub rb : DmaBuffer
  pub count : ℕ
  pub sw_rp : ℕ
  pub pending : List ℕ

unfoldable pub route_entry : ℕ → ℕ → ℕ → Route
route_entry resp ex cad =
    let seen = bit_and ex rirb_ex_cad_mask in
    if has_bits ex rirb_ex_unsol
    then unsolicited resp ex
    else if seen == cad
    then solicited resp
    else foreign seen resp

-- The loop of `collect_entries`, `fuel` rounds at most; `none` is a failed assertion of `read`.
unfoldable pub collect_loop : ℕ → (ℕ → Option (ℕ × ℕ)) → ℕ → ℕ → ℕ → Option (List (ℕ × ℕ))
collect_loop zero read rp hw_wp count = some []
collect_loop (suc fuel) read rp hw_wp count = elim (rp == hw_wp) [
  | true ↦ some []
  | false ↦
      let next = (rp + 1) % count in
      elim (read next) [
        | none ↦ none
        | some e ↦ elim (collect_loop fuel read next hw_wp count) [
          | none ↦ none
          | some entries ↦ some (e ∷ entries)
        ]
      ]
]

-- `collect_entries`, which asserts that the hardware's position is in the ring.
unfoldable pub collect_entries : ℕ → (ℕ → Option (ℕ × ℕ)) → ℕ → ℕ → ℕ → Option (List (ℕ × ℕ))
unfolding collect_loop
collect_entries fuel read rp hw_wp count =
    if leb count hw_wp then none else collect_loop fuel read rp hw_wp count

-- The responses for `cad` among the entries, in order of arrival.
unfoldable pub solicited_in : ℕ → List (ℕ × ℕ) → List ℕ
unfolding route_entry
solicited_in cad [] = []
solicited_in cad ((resp, ex) ∷ entries) = elim (route_entry resp ex cad) [
  | solicited r ↦ r ∷ solicited_in cad entries
  | unsolicited r e ↦ solicited_in cad entries
  | foreign s r ↦ solicited_in cad entries
]

-- What the hardware shows of the response ring at one poll: its entries. A wait polls at least once.
pub record Poll : Type 0 where
  pub entry : ℕ → ℕ × ℕ

abbrev pub Polls : Type 0
Polls = Poll × List Poll

abbrev pub rirb_off : ℕ
rirb_off = 1024

-- An entry as it is read from the buffer, whose bounds are asserted.
unfoldable pub read_entry : DmaBuffer → Poll → ℕ → Option (ℕ × ℕ)
read_entry rb p idx =
    if leb (rirb_off + idx * 8 + 8) (Dma.size rb) then some (p.entry idx) else none

-- The entries of a round behind the software's position: they are drained, and the first response
-- that is queued is the answer.
abbrev pub drained : ℕ → CorbRing → ℕ → List (ℕ × ℕ) → CorbRing × Option (Result ℕ)
drained cad c wp entries = elim (c.pending ++ solicited_in cad entries) [
  | [] ↦ (record c { sw_rp = wp; pending = [] }, none)
  | r ∷ rest ↦ (record c { sw_rp = wp; pending = rest }, some (ok r))
]

-- One round of the loop of `wait_response`, with the position that has been read: without an answer
-- it goes on to the next one.
unfoldable pub poll_once : ℕ → CorbRing → Poll → ℕ → Option (CorbRing × Option (Result ℕ))
unfolding collect_entries solicited_in read_entry
poll_once cad c p position =
    let wp = position % 256 in
    if leb c.count wp
    then some (c, some (err other))
    else if wp == c.sw_rp
    then some (c, none)
    else elim (collect_entries c.count (read_entry c.rb p) c.sw_rp wp c.count) [
      | none ↦ none
      | some entries ↦ some (drained cad c wp entries)
    ]

-- One of the choices of `program_size`: the capability, the encoding and the entries.
abbrev pub choices : List (ℕ × ℕ × ℕ)
choices = (0x40, 2, 256) ∷ (0x20, 1, 16) ∷ (0x10, 0, 2) ∷ []

module _ (bus : Device) where
  open bus use {D, read8, read16, write8, write16}

  unfoldable pub try_sizes : ℕ → ℕ → List (ℕ × ℕ × ℕ) → D → Result ℕ × D
  try_sizes reg caps [] d = (err unsupported, d)
  try_sizes reg caps ((cap, enc, n) ∷ more) d =
      let (back, d') = read8 (write8 d reg enc) reg in
      elim (has_bits caps cap) [
        | false ↦ try_sizes reg caps more d
        | true ↦ elim (bit_and back 3 == enc) [
          | true ↦ (ok n, d')
          | false ↦ try_sizes reg caps more d'
        ]
      ]

  unfoldable pub program_size : ℕ → D → Result ℕ × D
  unfolding try_sizes
  program_size reg d = let (caps, d') = read8 d reg in try_sizes reg caps choices d'

  -- `none` is a failed assertion of the buffer.
  unfoldable pub send : CorbRing → ℕ → D → Option (Result CorbRing × D)
  unfolding Dma.write
  send c cmdword d =
      let (w, d1) = read16 d corbwp in
      let (r, d2) = read16 d1 corbrp in
      let wp = w % 256 % c.count in
      let rp = r % 256 % c.count in
      let next = (wp + 1) % c.count in
      if next == rp then some (err would_block, d2) else do
        rb ← Dma.write c.rb (next * 4) (u32_le cmdword)
        some (ok (record c { rb = rb }), write16 d2 corbwp (next % 2 ^ 16))

  unfoldable pub shutdown : D → D
  shutdown d = write8 (write8 d corbctl 0) rirbctl 0

  -- The loop, over the polls that come before the deadline.
  unfoldable pub poll_loop : ℕ → CorbRing → Poll → List Poll → D → Option (CorbRing × Result ℕ × D)
  unfolding poll_once
  poll_loop cad c p [] d =
      let (position, d') = read16 d rirbwp in
      elim (poll_once cad c p position) [
        | none ↦ none
        | some (c', some r) ↦ some (c', r, d')
        | some (c', none) ↦ some (c', err timed_out, d')
      ]
  poll_loop cad c p (p' ∷ polls) d =
      let (position, d') = read16 d rirbwp in
      elim (poll_once cad c p position) [
        | none ↦ none
        | some (c', some r) ↦ some (c', r, d')
        | some (c', none) ↦ poll_loop cad c' p' polls d'
      ]

  unfoldable pub wait_response : ℕ → CorbRing → Polls → D → Option (CorbRing × Result ℕ × D)
  unfolding poll_loop
  wait_response cad c polls d = elim c.pending [
    | [] ↦ poll_loop cad c polls.0 polls.1 d
    | r ∷ rest ↦ some (record c { pending = rest }, ok r, d)
  ]
