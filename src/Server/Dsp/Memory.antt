-- ===== src/Server/Dsp/Memory.antt =====
-- What the resampler keeps: `retire` never erases, so feeding it in pieces is feeding it at once.
use native.Mathlib.Nat.{div-lt_iff_lt-mul}
use mathlib.Core.List.{append_assoc, append-nil}
use audiod.Prelude.{
  ℕ, suc, ◌+◌, ◌-◌, ◌*◌, ◌/◌, ◌≤◌, ◌<◌, min, max, ◌≡◌, sym, ap, ◌∙◌, List, [], ◌∷◌, ◌++◌, arith,
  length, length-append, concat,
}
use audiod.Prelude.Float.{Floats}
use audiod.Server.Dsp.Resampler.{Resampler, produce, keep_of, retire, resample}
use audiod.Server.Dsp.Stream.{
  IsValid, longer, produce_split, produce_end, produce_frame, resample-Enough,
}

div_mono : (p q d : ℕ) → 0 < d → p ≤ q → p / d ≤ q / d
div_mono p q d h k =
    let above : q < (q / d + 1) * d =
      (div-lt_iff_lt-mul {x = q} {y = q / d + 1} h).0 (omega arith) in
    let below : p / d < q / d + 1 = (div-lt_iff_lt-mul {x = p} {y = q / d + 1} h).1 (omega arith) in
    omega arith

module _ (fl : Floats) where
  open fl use {F32}

  -- The prefix after a call.
  abbrev prefix : Resampler F32 → ℕ
  prefix r = max r.off (min (r.at / r.step_den) (length r.hist / 2 - keep_of fl r.kind))

  -- A prefix within the history never makes up more than all of it: nothing is erased.
  retire_lem :
      (r : Resampler F32) → r.off * 2 ≤ length r.hist → retire fl r ≡ record r { off = prefix r }
  unfolding retire
  retire_lem r h = ground arith

  -- The loop of a call: its samples, and where it stops.
  abbrev made : Resampler F32 → List F32 → List F32 × ℕ
  made r input = produce fl (suc (length (r.hist ++ input) * r.step_den)) (longer fl r input) r.at

  -- The state after a loop over the history `hist` that stopped at `p`.
  abbrev left : Resampler F32 → List F32 → ℕ → Resampler F32
  left r hist p = record r { at = p; hist = hist; off = prefix (record r { at = p; hist = hist }) }

  -- A call's samples and state, with the erasure gone.
  resample_lem :
      (r : Resampler F32) (input : List F32)
      → r.off * 2 ≤ length r.hist
      → resample fl r input ≡ ((made r input).0, left r (r.hist ++ input) (made r input).1)
  unfolding resample
  resample_lem r input h =
      ap (λ (b : Resampler F32). ((made r input).0, b))
        (retire_lem (record (longer fl r input) { at = (made r input).1 })
          (omega (arith, length-append r.hist input)))

  pub resample-IsValid :
      (r : Resampler F32) (input : List F32) → IsValid F32 r → IsValid F32 (resample fl r input).1
  resample-IsValid r input v =
      rw (resample_lem r input v.kept) (ground (arith, length-append r.hist input))

  -- The state after some calls.
  pub feed : Resampler F32 → List (List F32) → Resampler F32
  feed r [] = r
  feed r (input ∷ inputs) = feed (resample fl r input).1 inputs

  -- After any inputs, the history of a valid resampler is what it was with all the inputs behind
  -- it: nothing is ever erased.
  pub hist-feed :
      (inputs : List (List F32)) (r : Resampler F32)
      → IsValid F32 r
      → (feed r inputs).hist ≡ r.hist ++ concat inputs
  unfolding feed
  hist-feed [] r v = sym (append-nil r.hist)
  hist-feed (input ∷ inputs) r v =
      hist-feed inputs (resample fl r input).1 (resample-IsValid r input v)
      ∙ ap (λ (h : List F32). h ++ concat inputs)
          (ap (λ (o : List F32 × Resampler F32). o.1.hist) (resample_lem r input v.kept))
      ∙ append_assoc r.hist input (concat inputs)

  -- The loop of the second call goes on where that of the first one stopped.
  made_split :
      (r : Resampler F32) (a b : List F32) (o : ℕ)
      → IsValid F32 r
      → let p = (made r a).1 in
        let r' = record r { at = p; hist = r.hist ++ a; off = o } in
        made r (a ++ b) ≡ ((made r a).0 ++ (made r' b).0, (made r' b).1)
  made_split r a b o v =
      let fa = longer fl r a in
      let p = (made r a).1 in
      let fuel = suc (length ((r.hist ++ a) ++ b) * r.step_den) in
      rw (← append_assoc r.hist a b) (
        produce_split fl (suc (length (r.hist ++ a) * r.step_den)) fuel fuel fa b r.at
          (resample-Enough fl fa r.at v.num_pos v.den_pos)
          (resample-Enough fl (longer fl fa b) r.at v.num_pos v.den_pos)
          (resample-Enough fl (longer fl fa b) p v.num_pos v.den_pos)
        ∙ ap (λ (x : List F32 × ℕ). ((made r a).0 ++ x.0, x.1))
            (sym (produce_frame fl fuel (longer fl fa b) p o p)))

  -- The loop of a call does not go back.
  le-made : (r : Resampler F32) (input : List F32) → IsValid F32 r → r.at ≤ (made r input).1
  le-made r input v =
      (produce_end fl (suc (length (r.hist ++ input) * r.step_den)) (longer fl r input) r.at
        (resample-Enough fl (longer fl r input) r.at v.num_pos v.den_pos)).0

  -- A prefix taken on the way does not show in a later one.
  prefix_twice :
      (r : Resampler F32) (hist more : List F32) (p q : ℕ)
      → 0 < r.step_den
      → p ≤ q
      → left (left r hist p) (hist ++ more) q ≡ left r (hist ++ more) q
  prefix_twice r hist more p q d h =
      ground (arith, length-append hist more, div_mono p q r.step_den)

  -- Feeding a valid resampler a stream in two pieces gives the samples of one call, and the same
  -- state.
  pub resample_split :
      (r : Resampler F32) (a b : List F32)
      → IsValid F32 r
      → let (out, r') = resample fl r a in
        let (out', r'') = resample fl r' b in resample fl r (a ++ b) ≡ (out ++ out', r'')
  resample_split r a b v =
      let r' = left r (r.hist ++ a) (made r a).1 in
      let v' = rw (resample_lem r a v.kept) at (resample-IsValid r a v) in
      rw (resample_lem r a v.kept) (
        rw (resample_lem r' b v'.kept, resample_lem r (a ++ b) v.kept, made_split r a b r'.off v)
          (rw (← append_assoc r.hist a b) (
            ap (λ (s : Resampler F32). ((made r a).0 ++ (made r' b).0, s))
              (sym (
                prefix_twice r (r.hist ++ a) b (made r a).1 (made r' b).1 v.den_pos
                  (le-made r' b v'))))))
