-- ===== src/Hda/Corb/Drain.antt =====
-- Draining the response ring: what is read, and whose answer it is.
use native.Mathlib.Nat.{mod-eq_of_lt, mod_self, mod-lt}
use audiod.Prelude.{
  ℕ, zero, suc, ◌+◌, ◌-◌, ◌%◌, ◌≤◌, ◌<◌, ◌≡◌, refl, sym, ap, ◌∙◌, ◌≢◌, inl, inr, true, false,
  Option, none, some, List, [], ◌∷◌, ◌++◌, arith, ltb, leb, ◌==◌, if◌then◌else◌, ltb→lt, Bool-cases,
  length, tabulate, tabulate_ext,
}
use audiod.Hda.Device.{Device}
use audiod.Hda.Dma.{DmaBuffer}
use audiod.Hda.Corb.{
  Result, ok, err, timed_out, CorbRing, Poll, Polls, collect_loop, collect_entries, read_entry,
  route_entry, solicited, solicited_in, drained, poll_once, poll_loop, wait_response, rirbwp,
}
use audiod.Hda.Corb.Sound.{IsSound, read_entry-some}

-- How far the hardware is ahead.
abbrev pub ahead : ℕ → ℕ → ℕ → ℕ
ahead rp wp count = if leb rp wp then wp - rp else count - rp + wp

-- The position `k` entries behind `rp`.
abbrev pub slot : ℕ → ℕ → ℕ → ℕ
slot rp count k = if ltb (rp + k) count then rp + k else rp + k - count

next_slot : (rp count : ℕ) → rp < count → (rp + 1) % count ≡ slot rp count 1
next_slot rp count h = elim (Bool-cases (ltb (rp + 1) count)) [
  | inl e ↦ mod-eq_of_lt (ltb→lt (rp + 1) count e) ∙ sym (ground arith)
  | inr e ↦
      let c : rp + 1 ≡ count = ground arith in
      ap (λ (n : ℕ). n % count) c ∙ mod_self count ∙ sym (ground arith)
]

next_slots :
    (rp wp count k : ℕ)
    → rp < count
    → wp < count
    → k < ahead (slot rp count 1) wp count
    → slot (slot rp count 1) count (k + 1) ≡ slot rp count (suc k + 1)
next_slots rp wp count k p q l = ground arith

collect_loop_lem :
    (fuel : ℕ) (read : ℕ → Option (ℕ × ℕ)) (entry : ℕ → ℕ × ℕ) (rp wp count : ℕ)
    → rp < count
    → wp < count
    → ahead rp wp count ≤ fuel
    → ((i : ℕ) → i < count → read i ≡ some (entry i))
    → collect_loop fuel read rp wp count
      ≡ some (tabulate (ahead rp wp count) (λ k. entry (slot rp count (k + 1))))
unfolding collect_loop
collect_loop_lem zero read entry rp wp count p q f h =
    let z : ahead rp wp count ≡ 0 = omega arith in rw z refl
collect_loop_lem (suc fuel) read entry rp wp count p q f h = elim (Bool-cases (rp == wp)) [
  | inl e ↦ let z : ahead rp wp count ≡ 0 = ground arith in rw (e, z, collect_loop) refl
  | inr e ↦
      let next = slot rp count 1 in
      let n : next < count = ground arith in
      let m : ahead rp wp count ≡ suc (ahead next wp count) = ground arith in
      let found : read ((rp + 1) % count) ≡ some (entry next) =
        ap read (next_slot rp count p) ∙ h next n in
      let ih =
        ap (λ (rp : ℕ). collect_loop fuel read rp wp count) (next_slot rp count p)
        ∙ collect_loop_lem fuel read entry next wp count n q (omega arith) h in
      rw (e, m, found, ih, collect_loop)
        (ap (λ (es : List (ℕ × ℕ)). some (entry next ∷ es))
          (tabulate_ext (ahead next wp count) (λ k. entry (slot next count (k + 1)))
            (λ k. entry (slot rp count (suc k + 1)))
            (λ k l. ap entry (next_slots rp wp count k p q l))))
]

-- With both positions in the ring, draining reads the entries behind the software's position one
-- by one, around the end of the ring, up to the hardware's and no further, if it has as many
-- rounds as there are entries between them and the entries of the ring can be read.
pub collect_entries_lem :
    (fuel : ℕ) (read : ℕ → Option (ℕ × ℕ)) (entry : ℕ → ℕ × ℕ) (rp wp count : ℕ)
    → rp < count
    → wp < count
    → ahead rp wp count ≤ fuel
    → ((i : ℕ) → i < count → read i ≡ some (entry i))
    → collect_entries fuel read rp wp count
      ≡ some (tabulate (ahead rp wp count) (λ k. entry (slot rp count (k + 1))))
unfolding collect_entries
collect_entries_lem fuel read entry rp wp count p q f h =
    let inside : leb count wp ≡ false = ground arith in
    rw inside (collect_loop_lem fuel read entry rp wp count p q f h)

one_slot :
    (rp count : ℕ)
    → rp < count
    → (rp + 1) % count ≢ rp
    → (ahead rp ((rp + 1) % count) count ≡ 1) × (slot rp count 1 ≡ (rp + 1) % count)
one_slot rp count p n = let e = next_slot rp count p in (ground (arith, e), sym e)

-- A round in which the hardware's position is where the software's is.
stalled_round :
    (cad : ℕ) (c : CorbRing) (p : Poll) (position : ℕ)
    → c.sw_rp < c.count
    → position % 256 ≡ c.sw_rp
    → poll_once cad c p position ≡ some (c, none)
unfolding poll_once
stalled_round cad c p position l e =
    let inside : leb c.count (position % 256) ≡ false = ground (arith, e) in
    let same : (position % 256 == c.sw_rp) ≡ true = ground (arith, e) in rw (inside, same) refl

drained_one :
    (cad r ex wp : ℕ) (c : CorbRing)
    → c.pending ≡ []
    → route_entry r ex cad ≡ solicited r
    → drained cad c wp ((r, ex) ∷ []) ≡ (record c { sw_rp = wp; pending = [] }, some (ok r))
unfolding solicited_in
drained_one cad r ex wp c e mine = go c.pending e
  where
    go :
        (queued : List ℕ)
        → queued ≡ []
        → let taken : CorbRing × Option (Result ℕ) =
            (record c { sw_rp = wp; pending = [] }, some (ok r)) in
          let answer : CorbRing × Option (Result ℕ) =
            elim (queued ++ solicited_in cad ((r, ex) ∷ [])) [
              | [] ↦ (record c { sw_rp = wp; pending = [] }, none)
              | x ∷ rest ↦ (record c { sw_rp = wp; pending = rest }, some (ok x))
            ] in
          answer ≡ taken
    go [] e = rw mine refl
    go (x ∷ queued) e = ground arith

-- A round in which one entry has come, the response to a verb of this codec.
answered_round :
    (cad r ex : ℕ) (c : CorbRing) (p : Poll) (position : ℕ)
    → IsSound c
    → c.pending ≡ []
    → c.sw_rp < c.count
    → position % 256 ≡ (c.sw_rp + 1) % c.count
    → (c.sw_rp + 1) % c.count ≢ c.sw_rp
    → p.entry ((c.sw_rp + 1) % c.count) ≡ (r, ex)
    → route_entry r ex cad ≡ solicited r
    → poll_once cad c p position
      ≡ some (record c { sw_rp = (c.sw_rp + 1) % c.count; pending = [] }, some (ok r))
unfolding poll_once solicited_in
answered_round cad r ex c p position v none_pending l at moved shown mine =
    let wp = (c.sw_rp + 1) % c.count in
    let within : wp < c.count = mod-lt (c.sw_rp + 1) v.some_entry in
    let inside : leb c.count wp ≡ false = ground arith in
    let new : (wp == c.sw_rp) ≡ false = ground arith in
    let (one, first) = one_slot c.sw_rp c.count l moved in
    let got =
      collect_loop_lem c.count (read_entry c.rb p) p.entry c.sw_rp wp c.count l within
        (ground (arith, one)) (λ i h. read_entry-some c p i v h) in
    rw (at, inside, new, got, at, one, first, shown)
      (ap some (drained_one cad r ex wp c none_pending mine))

module _ (bus : Device) where
  open bus use {D, read16}

  -- At each of the polls, one and then `more`, the controller shows this position.
  abbrev pub Stalls : ℕ → List Poll → D → Type 0
  Stalls position [] d = (read16 d rirbwp).0 % 256 ≡ position
  Stalls position (p ∷ more) d =
      ((read16 d rirbwp).0 % 256 ≡ position) × Stalls position more (read16 d rirbwp).1

  stalled_loop :
      (cad : ℕ) (c : CorbRing) (p : Poll) (more : List Poll) (d : D)
      → c.sw_rp < c.count
      → Stalls c.sw_rp more d
      → (d' : D) × (poll_loop bus cad c p more d ≡ some (c, err timed_out, d'))
  unfolding poll_loop
  stalled_loop cad c p [] d l s =
      ((read16 d rirbwp).1, rw (stalled_round cad c p (read16 d rirbwp).0 l s, poll_loop) refl)
  stalled_loop cad c p (p' ∷ more) d l s =
      let (d', rest) = stalled_loop cad c p' more (read16 d rirbwp).1 l s.1 in
      (d', rw (stalled_round cad c p (read16 d rirbwp).0 l s.0, poll_loop) rest)

  answered_loop :
      (cad r : ℕ) (c c' : CorbRing) (p : Poll) (more : List Poll) (d : D)
      → poll_once cad c p (read16 d rirbwp).0 ≡ some (c', some (ok r))
      → poll_loop bus cad c p more d ≡ some (c', ok r, (read16 d rirbwp).1)
  unfolding poll_loop
  answered_loop cad r c c' p [] d e = rw (e, poll_loop) refl
  answered_loop cad r c c' p (p' ∷ more) d e = rw (e, poll_loop) refl

  -- With no response queued, a wait polls.
  waits :
      (cad : ℕ) (c : CorbRing) (polls : Polls) (d : D)
      → c.pending ≡ []
      → wait_response bus cad c polls d ≡ poll_loop bus cad c polls.0 polls.1 d
  unfolding wait_response
  waits cad c polls d e = go c.pending e
    where
      go :
          (queued : List ℕ)
          → queued ≡ []
          → elim queued [
            | [] ↦ poll_loop bus cad c polls.0 polls.1 d
            | r ∷ rest ↦ some (record c { pending = rest }, ok r, d)
          ]
            ≡ poll_loop bus cad c polls.0 polls.1 d
      go [] e = refl
      go (x ∷ queued) e = ground arith

  -- When no response is queued and a verb is given up at its deadline after one or more polls that
  -- all show no new entry, the ring is as it was; and if its response then arrives as the one new
  -- entry of the ring, the next verb to the same codec, written into the page in the meantime,
  -- takes that response for its own. The ring has at most 256 entries in a page of 4096 bytes.
  pub late_response :
      (cad r ex : ℕ) (c : CorbRing) (polls polls' : Polls) (d d2 : D) (rb : DmaBuffer)
      → c.pending ≡ []
      → c.sw_rp < c.count
      → c.count ≤ 256
      → length rb.bytes ≡ 4096
      → Stalls c.sw_rp polls.1 d
      → (read16 d2 rirbwp).0 % 256 ≡ (c.sw_rp + 1) % c.count
      → (c.sw_rp + 1) % c.count ≢ c.sw_rp
      → polls'.0.entry ((c.sw_rp + 1) % c.count) ≡ (r, ex)
      → route_entry r ex cad ≡ solicited r
      → ((d' : D) × (wait_response bus cad c polls d ≡ some (c, err timed_out, d')))
        × (wait_response bus cad (record c { rb = rb }) polls' d2
            ≡ some (
              record c { rb = rb; sw_rp = (c.sw_rp + 1) % c.count; pending = [] },
              ok r,
              (read16 d2 rirbwp).1,
            ))
  late_response cad r ex c polls polls' d d2 rb a l few page s at moved shown mine =
      let v : IsSound (record c { rb = rb }) = record {
        some_entry = omega arith;
        few = few;
        page = page;
      } in
      let round =
        answered_round cad r ex (record c { rb = rb }) polls'.0 (read16 d2 rirbwp).0 v a l at moved
          shown mine in
      let (d', gone) = stalled_loop cad c polls.0 polls.1 d l s in
      (
        (d', waits cad c polls d a ∙ gone),
        waits cad (record c { rb = rb }) polls' d2 a
            ∙ answered_loop cad r (record c { rb = rb }) _ polls'.0 polls'.1 d2 round,
      )
