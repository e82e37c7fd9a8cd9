-- ===== src/Hda/Corb/Sound.antt =====
-- The rings fit into their page, so that no assertion of the buffer fails.
use audiod.Prelude.{
  ℕ, zero, suc, ◌+◌, ◌*◌, ◌/◌, ◌%◌, ◌≤◌, ◌<◌, ◌≡◌, refl, ◌∙◌, ◌⊎◌, inl, inr, true, Option, none,
  some, List, [], ◌∷◌, arith, ltb, leb, ◌==◌, Bool-cases, length, replicate, tabulate,
  length-replicate, length-blit, length-tabulate, bit_and,
}
use audiod.Prelude.Splits.{List-cases}
use native.Mathlib.Nat.{mod-lt}
use audiod.Prelude.Bytes.{u32_le}
use audiod.Hda.Device.{Device, has_bits}
use audiod.Hda.Dma
use audiod.Hda.Dma.{DmaBuffer, out_of_range, size, toaddr, zero_bytes}
use audiod.Hda.Io.{Ensures, Gives, Ensures-after, attempt}
use audiod.Hda.Corb.{
  CorbRing, Poll, Polls, Result, err, timed_out, try_sizes, program_size, choices, send,
  wait_response, poll_loop, poll_once, corbctl, rirbctl, corbwp, corbrp, rirbwp, read_entry,
  collect_loop, collect_entries, drained,
}
use audiod.Hda.Corb.Init.{init, program_rings, corbsize, rirbsize}

-- At most 256 entries, and a page.
pub record IsSound (c : CorbRing) : Type 0 where
  pub some_entry : 0 < c.count
  pub few : c.count ≤ 256
  pub page : length c.rb.bytes ≡ 4096

-- The sizes that may be chosen.
abbrev AllFit : List (ℕ × ℕ × ℕ) → Type 0
AllFit [] = Unit {0}
AllFit ((mask, enc, n) ∷ more) = (0 < n) × (n ≤ 256) × AllFit more

Fits : ℕ → Type 0
Fits n = (0 < n) × (n ≤ 256)

module _ (bus : Device) where
  open bus use {D}

  try_sizes-Fits :
      (reg caps : ℕ) (sizes : List (ℕ × ℕ × ℕ)) (d : D)
      → AllFit sizes
      → Gives Fits (try_sizes bus reg caps sizes d).0
  unfolding try_sizes Fits
  try_sizes-Fits reg caps [] d h = tt
  try_sizes-Fits reg caps ((mask, enc, n) ∷ more) d h =
      let d1 = bus.write8 d reg enc in
      let back = (bus.read8 d1 reg).0 in
      elim (Bool-cases (has_bits caps mask)) [
        | inl e ↦ elim (Bool-cases (bit_and back 3 == enc)) [
          | inl e' ↦ rw (e, try_sizes) (rw e' (h.0, h.1))
          | inr e' ↦
              rw (e, try_sizes) (rw e' (try_sizes-Fits reg caps more (bus.read8 d1 reg).1 h.2))
        ]
        | inr e ↦ rw (e, try_sizes) (try_sizes-Fits reg caps more d h.2)
      ]

  program_size-Fits : (reg : ℕ) (d : D) → Gives Fits (program_size bus reg d).0
  unfolding program_size
  program_size-Fits reg d =
      let r = bus.read8 d reg in try_sizes-Fits reg r.0 choices r.1 (omega arith)

  new-size :
      (page_at : ℕ → ℕ)
      → (Dma.new 4096 page_at ≡ none)
        ⊎ ((b : DmaBuffer) × (Dma.new 4096 page_at ≡ some b)
            × (length b.bytes ≡ 4096)
            × (length b.phys ≡ 1))
  unfolding Dma.new
  new-size page_at = elim (Bool-cases (out_of_range (tabulate 1 page_at))) [
    | inl e ↦ inl (rw e refl)
    | inr e ↦ inr (
      record { bytes = replicate 4096 0; phys = tabulate 1 page_at },
      rw e refl,
      length-replicate {A = ℕ} 4096 0,
      length-tabulate 1 page_at,
    )
  ]

  rings-IsSound :
      (rb : DmaBuffer) (polls : ℕ) (d : D)
      → length rb.bytes ≡ 4096
      → length rb.phys ≡ 1
      → Ensures IsSound (program_rings bus rb polls d)
  unfolding program_rings toaddr Fits
  rings-IsSound rb polls d h p =
      let e0 : ltb 0 (size rb) ≡ true = ground (arith, h) in
      let e1 : ltb 1024 (size rb) ≡ true = ground (arith, h) in
      let e2 : ltb (0 / 4096) (length rb.phys) ≡ true = ground (arith, p) in
      rw (e0, e1, e2)
        (Ensures-after Fits IsSound (attempt (program_size bus corbsize) _) _
          (program_size-Fits corbsize _)
          (λ count d1 fits.
            Ensures-after Fits IsSound (attempt (program_size bus rirbsize) d1) _
              (program_size-Fits rirbsize d1)
              (λ rirb_count d2 fits'. elim (Bool-cases (rirb_count == count)) [
                | inl e ↦ rw e (record { some_entry = fits.0; few = fits.1; page = h })
                | inr e ↦ rw e tt
              ])))

  pub init-IsSound :
      (page_at : ℕ → ℕ) (polls : ℕ) (d : D) → Ensures IsSound (init bus page_at polls d)
  unfolding init zero_bytes
  init-IsSound page_at polls d = elim (new-size page_at) [
    | inl e ↦ rw e tt
    | inr (b, e, h, p) ↦ rw e (
        rings-IsSound (zero_bytes b) polls (bus.write8 (bus.write8 d corbctl 0) rirbctl 0)
          (length-replicate {A = ℕ} (size b) 0 ∙ h) p)
  ]

  -- A verb is sent within the page, so no assertion fails.
  pub send-IsSound :
      (c : CorbRing) (cmdword : ℕ) (d : D) → IsSound c → Ensures IsSound (send bus c cmdword d)
  unfolding send Dma.write
  send-IsSound c cmdword d v =
      let (w, d1) = bus.read16 d corbwp in
      let (r, d2) = bus.read16 d1 corbrp in
      let wp = w % 256 % c.count in
      let next = (wp + 1) % c.count in
      let inside = mod-lt (wp + 1) v.some_entry in
      let e : leb (next * 4 + 4) (length c.rb.bytes) ≡ true =
        ground (arith, inside, v.few, v.page) in
      elim (Bool-cases (next == r % 256 % c.count)) [
        | inl f ↦ rw f tt
        | inr f ↦
            rw (f, e)
              (record {
                some_entry = v.some_entry;
                few = v.few;
                page = length-blit c.rb.bytes (next * 4) (u32_le cmdword) ∙ v.page;
              })
      ]

-- A drained entry lies in the page.
pub read_entry-some :
    (c : CorbRing) (p : Poll) (idx : ℕ)
    → IsSound c
    → idx < c.count
    → read_entry c.rb p idx ≡ some (p.entry idx)
unfolding read_entry
read_entry-some c p idx v l =
    let e : leb (1024 + idx * 8 + 8) (length c.rb.bytes) ≡ true =
      ground (arith, l, v.few, v.page) in
    rw e refl

collect_loop-some :
    (fuel : ℕ) (c : CorbRing) (p : Poll) (rp wp : ℕ)
    → IsSound c
    → (entries : List (ℕ × ℕ)) × (collect_loop fuel (read_entry c.rb p) rp wp c.count
        ≡ some entries)
unfolding collect_loop
collect_loop-some zero c p rp wp v = ([], refl)
collect_loop-some (suc fuel) c p rp wp v = elim (Bool-cases (rp == wp)) [
  | inl e ↦ ([], rw (e, collect_loop) refl)
  | inr e ↦
      let next = (rp + 1) % c.count in
      let (entries, rest) = collect_loop-some fuel c p next wp v in
      let read = read_entry-some c p next v (mod-lt (rp + 1) v.some_entry) in
      (p.entry next ∷ entries, rw (e, read, rest, collect_loop) refl)
]

-- A round fails no assertion, and the rings still fit.
abbrev RoundReturns : Option (CorbRing × Option (Result ℕ)) → Type 0
RoundReturns none = ⊥
RoundReturns (some (ring, answer)) = IsSound ring

-- The same for a wait.
abbrev pub RingReturns : {D : Type 0} → Option (CorbRing × Result ℕ × D) → Type 0
RingReturns none = ⊥
RingReturns (some (ring, answer, d)) = IsSound ring

drained-IsSound :
    (cad : ℕ) (c : CorbRing) (wp : ℕ) (entries : List (ℕ × ℕ))
    → IsSound c
    → IsSound (drained cad c wp entries).0
drained-IsSound cad c wp entries v = ground arith

poll_once-Returns :
    (cad : ℕ) (c : CorbRing) (p : Poll) (position : ℕ)
    → IsSound c
    → RoundReturns (poll_once cad c p position)
unfolding poll_once collect_entries
poll_once-Returns cad c p position v =
    let wp = position % 256 in
    elim (Bool-cases (leb c.count wp)) [
      | inl e ↦ rw e v
      | inr e ↦ elim (Bool-cases (wp == c.sw_rp)) [
        | inl f ↦ rw (e, f) v
        | inr f ↦
            let (entries, g) = collect_loop-some c.count c p c.sw_rp wp v in
            rw (e, f, g) (drained-IsSound cad c wp entries v)
      ]
    ]

module _ (bus : Device) where
  open bus use {D, read16}

  -- What a wait makes of a round.
  after_round :
      (r : Option (CorbRing × Option (Result ℕ))) (d : D)
      (go : CorbRing → Option (CorbRing × Result ℕ × D))
      → RoundReturns r
      → ((c : CorbRing) → IsSound c → RingReturns (go c))
      → RingReturns
          (elim r [ none ↦ none | some (c', some a) ↦ some (c', a, d) | some (c', none) ↦ go c' ])
  after_round none d go h k = h
  after_round (some (c', some a)) d go h k = h
  after_round (some (c', none)) d go h k = k c' h

  poll_loop-Returns :
      (cad : ℕ) (c : CorbRing) (p : Poll) (polls : List Poll) (d : D)
      → IsSound c
      → RingReturns (poll_loop bus cad c p polls d)
  unfolding poll_loop
  poll_loop-Returns cad c p [] d v =
      after_round _ (read16 d rirbwp).1 (λ c'. some (c', err timed_out, (read16 d rirbwp).1))
        (poll_once-Returns cad c p (read16 d rirbwp).0 v) (λ c' w. w)
  poll_loop-Returns cad c p (p' ∷ polls) d v =
      let d' = (read16 d rirbwp).1 in
      after_round _ d' (λ c'. poll_loop bus cad c' p' polls d')
        (poll_once-Returns cad c p (read16 d rirbwp).0 v)
        (λ c' w. poll_loop-Returns cad c' p' polls d' w)

  pub wait_response-IsSound :
      (cad : ℕ) (c : CorbRing) (polls : Polls) (d : D)
      → IsSound c
      → RingReturns (wait_response bus cad c polls d)
  unfolding wait_response
  wait_response-IsSound cad c polls d v = elim (List-cases c.pending) [
    | inl e ↦ rw (e, wait_response) (poll_loop-Returns cad c polls.0 polls.1 d v)
    | inr (r, rest, e) ↦ rw e (record { some_entry = v.some_entry; few = v.few; page = v.page })
  ]
