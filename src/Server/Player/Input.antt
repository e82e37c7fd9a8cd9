-- ===== src/Server/Player/Input.antt =====
-- What the player of the standard input makes of reads that end amid a frame.
use audiod.Prelude.{
  ℕ, ◌*◌, ◌/◌, ◌<◌, ◌≡◌, refl, sym, ap, ap₂, ◌∙◌, inl, inr, true, List, [], ◌∷◌, ◌++◌, arith, ◌==◌,
  if◌then◌else◌, ==_iff, Bool-cases, length, take,
}
use mathlib.Core.Path.{subst}
use mathlib.Core.List.{append-nil}
use audiod.Prelude.Float.{Floats}
use audiod.Server.Player.{Event, fed, drained, Player, sync_muted, Turn, is_unity, play, stdin_loop}
use audiod.Server.Player.Whole.{
  fed_bytes, EndsDrained, IsStereo, sync_muted-IsStereo, fed_bytes-append, EndsDrained-append,
  take-length_min, Plays, Plays-synced, play_unity, ready,
}

fed_bytes-frames :
    (k : ℕ) (xs : List ℕ)
    → fed_bytes (if k == 0 then [] else fed (take (k * 4) (take (k * 4) xs)) ∷ []) ≡ take (k * 4) xs
fed_bytes-frames k xs = elim (Bool-cases (k == 0)) [
  | inl z ↦ let e : k * 4 ≡ 0 = omega (arith, (==_iff k 0).0 z) in rw (z, e) refl
  | inr z ↦ rw z (append-nil (take (k * 4) (take (k * 4) xs)) ∙ take-length_min (k * 4) xs)
]

module _ (fl : Floats) where
  open fl use {F32}

  -- Each of the reads is not empty, and plays at full volume.
  abbrev pub AllHeard : List (Turn F32 × List ℕ) → Type 0
  AllHeard [] = Unit {0}
  AllHeard ((t, buf) ∷ reads) = (is_unity fl t.gain ≡ true) × (0 < length buf) × AllHeard reads

  -- The whole frames of each read by itself.
  abbrev pub whole_reads : List (Turn F32 × List ℕ) → List ℕ
  whole_reads [] = []
  whole_reads ((t, buf) ∷ reads) = take (length buf / 4 * 4) buf ++ whole_reads reads

  stdin_loop-step :
      (pl : Player) (b : ℕ) (bs : List ℕ) (t : Turn F32) (turns : List (Turn F32 × List ℕ))
      → IsStereo pl
      → is_unity fl t.gain ≡ true
      → let n = length (b ∷ bs) / 4 * 4 in
        let (pl1, synced) = sync_muted pl t.muted_sync t.amp_ok in
        stdin_loop fl pl ((t, b ∷ bs) ∷ turns)
        ≡ synced
          ++ ((if length (b ∷ bs) / 4 == 0 then [] else fed (take n (take n (b ∷ bs))) ∷ [])
              ++ stdin_loop fl pl1 turns)
  unfolding stdin_loop
  stdin_loop-step pl b bs t turns v u =
      let buf = b ∷ bs in
      let (pl1, synced) = sync_muted pl t.muted_sync t.amp_ok in
      let r = ready fl pl t v in
      let p =
        play_unity fl pl1 t.gain (take (length buf / 4 * 4) buf) (length buf / 4)
          (sync_muted-IsStereo pl t.muted_sync t.amp_ok v) u in
      let after = λ (q : Player × List Event). synced ++ (q.1 ++ stdin_loop fl q.0 turns) in
      rw (r.0, r.1) refl
      ∙ (ap₂ (λ (f : ℕ) (c : ℕ). after (play fl pl1 t.gain (take c buf) f))
            (ap (λ c. length buf / c) v.frame_size) (ap (λ c. length buf / c * c) v.frame_size)
          ∙ ap after p)

  -- Of 16-bit stereo samples on the standard input, read in pieces that are not empty up to its
  -- end, the backend is fed the whole frames of each piece by itself, and is drained at the end,
  -- if the codec takes the mute and the volume is full: a frame that is cut by the end of a read
  -- is lost.
  pub stdin_loop_lem :
      (pl : Player) (reads : List (Turn F32 × List ℕ)) (t : Turn F32)
      (turns : List (Turn F32 × List ℕ))
      → IsStereo pl
      → AllHeard reads
      → (fed_bytes (stdin_loop fl pl (reads ++ (t, []) ∷ turns)) ≡ whole_reads reads)
        × EndsDrained (stdin_loop fl pl (reads ++ (t, []) ∷ turns))
  unfolding Plays
  stdin_loop_lem pl [] t turns v h =
      unfold stdin_loop in Plays-synced fl pl t (drained ∷ []) [] (refl, refl)
  stdin_loop_lem pl ((t', []) ∷ reads) t turns v h = absurd (omega arith)
  stdin_loop_lem pl ((t', b ∷ bs) ∷ reads) t turns v h =
      let buf = b ∷ bs in
      let n = length buf / 4 * 4 in
      let part = take n (take n buf) in
      let pl1 = (sync_muted pl t'.muted_sync t'.amp_ok).0 in
      let v1 = sync_muted-IsStereo pl t'.muted_sync t'.amp_ok v in
      let w = stdin_loop_lem pl1 reads t turns v1 h.2 in
      let rest = stdin_loop fl pl1 (reads ++ (t, []) ∷ turns) in
      let played : List Event = if length buf / 4 == 0 then [] else fed part ∷ [] in
      let heard : fed_bytes played ≡ take n buf = fed_bytes-frames (length buf / 4) buf in
      subst (λ (e : List Event). Plays fl e (take n buf ++ whole_reads reads))
        (sym (stdin_loop-step pl b bs t' (reads ++ (t, []) ∷ turns) v h.0))
        (Plays-synced fl pl t' (played ++ rest) (take n buf ++ whole_reads reads) (
          fed_bytes-append played rest ∙ ap₂ (λ (x y : List ℕ). x ++ y) heard w.0,
          EndsDrained-append played rest w.1,
        ))
