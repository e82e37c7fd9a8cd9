-- ===== src/Server/Backend/Pacing.antt =====
-- `Backend::play` keeps the DMA ring at the level that the shim counts on.
use audiod.Prelude.{
  ℕ, ◌/◌, ◌%◌, ◌≤◌, ◌<◌, ◌≡◌, refl, sym, ap, ◌∙◌, inl, inr, some, List, [], ◌∷◌, ◌++◌, arith,
  Bool-cases, length, take, drop, length-append, length-take, length-tabulate,
}
use mathlib.Core.Path.{subst}
use audiod.Common.Ring.Queue.{byte_at}
use audiod.Hda.Stream.{ring_size, Stream, delay_bytes, write_at}
use audiod.Hda.Stream.Queue.{IsValid, ring_of, pending, write_at_lem, delay-add-free}
use audiod.Server.Backend.{hda_rates, nearest_of, nearest_hda_rate, nearer, abs_diff, offer}

-- On a valid stream that holds whole frames, fewer than 4096, what a round of `Backend::play`
-- offers is taken whole, without a failed assertion, and queued behind the bytes that are yet to
-- be played; the stream stays valid and the DMA ring then holds at most 16384 bytes, which are
-- 4096 frames. The DMA engine may have gone on in between, so that no more is yet to be played at
-- the write than at the first look.
pub offer_lem :
    (s : Stream) (rd rd' : ℕ) (samples : List ℕ)
    → IsValid s
    → rd < ring_size
    → rd' < ring_size
    → delay_bytes s rd % 4 ≡ 0
    → delay_bytes s rd' ≤ delay_bytes s rd
    → delay_bytes s rd / 4 < 4096
    → let part = take (offer (delay_bytes s rd / 4) (length samples)) samples in
      (s' : Stream) × (write_at s rd' part ≡ some (length part, s'))
      × IsValid s'
      × (pending s' rd' ≡ pending s rd' ++ part)
      × (length (pending s' rd') ≤ 16384)
unfolding offer
offer_lem s rd rd' samples v h h' a m l =
    let k = offer (delay_bytes s rd / 4) (length samples) in
    let part = take k samples in
    let b = length-take k samples in
    let f = delay-add-free s rd' v.inside h' in
    let r = write_at_lem s rd' part v h' (omega (arith, b, f)) in
    let c = ap (λ (l : List ℕ). length l) r.3 ∙ length-append (pending s rd') part in
    let e = length-tabulate (delay_bytes s rd') (byte_at (ring_of s rd')) in
    (r.0, r.1, r.2, r.3, omega (arith, b, c, e))

-- None of the rates is nearer.
abbrev pub NoneNearer : ℕ → ℕ → List ℕ → Type 0
NoneNearer rate chosen [] = Unit {0}
NoneNearer rate chosen (r ∷ rates) =
    (abs_diff chosen rate ≤ abs_diff r rate) × NoneNearer rate chosen rates

nearest_of_lem :
    (rate best : ℕ) (rates : List ℕ)
    → (abs_diff (nearest_of rate best rates) rate ≤ abs_diff best rate)
      × NoneNearer rate (nearest_of rate best rates) rates
unfolding nearest_of
nearest_of_lem rate best [] = (omega arith, tt)
nearest_of_lem rate best (r ∷ rates) =
    let keep = nearest_of_lem rate best rates in
    let change = nearest_of_lem rate r rates in
    elim (Bool-cases (nearer rate best r)) [
      | inl e ↦
          let step : nearest_of rate best (r ∷ rates) ≡ nearest_of rate best rates =
            rw (e, nearest_of) refl in
          subst (λ (n : ℕ). (abs_diff n rate ≤ abs_diff best rate) × NoneNearer rate n (r ∷ rates))
            (sym step) (keep.0, (ground arith, keep.1))
      | inr e ↦
          let step : nearest_of rate best (r ∷ rates) ≡ nearest_of rate r rates =
            rw (e, nearest_of) refl in
          subst (λ (n : ℕ). (abs_diff n rate ≤ abs_diff best rate) × NoneNearer rate n (r ∷ rates))
            (sym step) (ground arith, change)
    ]

-- No rate of the link's list differs less from a client's rate than the one chosen for it.
pub nearest_hda_rate_lem : (rate : ℕ) → NoneNearer rate (nearest_hda_rate rate) hda_rates
unfolding nearest_hda_rate
nearest_hda_rate_lem rate = nearest_of_lem rate 192000 (drop 1 hda_rates)
