-- ===== src/Server/Player/Silence.antt =====
-- `convert_to_s16` knows no 16-bit samples of three or more channels.
use audiod.Prelude.{
  ℕ, zero, suc, ◌-◌, ◌*◌, ◌/◌, ◌<◌, ◌≡◌, refl, sym, inl, inr, Bool, true, false, List, [], ◌∷◌,
  ◌++◌, arith, ◌==◌, Bool-cases, length, take, replicate,
}
use mathlib.Core.Path.{subst}
use audiod.Prelude.Float.{Floats}
use audiod.Common.Audio.{audio_cfg}
use audiod.Server.State.{ServerState, Route}
use audiod.Server.Player.{
  Event, fed, amp, led, drained, panicked, Player, open_player, sync_muted, Turn, convert_to_s16,
  resize, play, stdin_loop, play_stdin, holds_back,
}

abbrev pub AllZero : List ℕ → Type 0
AllZero [] = Unit {0}
AllZero (b ∷ bs) = (b ≡ 0) × AllZero bs

-- All samples that a trace feeds to the backend are zero.
abbrev pub AllSilent : List Event → Type 0
AllSilent [] = Unit {0}
AllSilent (fed bytes ∷ events) = AllZero bytes × AllSilent events
AllSilent (amp b ∷ events) = AllSilent events
AllSilent (led b ∷ events) = AllSilent events
AllSilent (drained ∷ events) = AllSilent events
AllSilent (panicked ∷ events) = AllSilent events

AllZero-append : (xs ys : List ℕ) → AllZero xs → AllZero ys → AllZero (xs ++ ys)
AllZero-append [] ys h k = k
AllZero-append (x ∷ xs) ys h k = (h.0, AllZero-append xs ys h.1 k)

AllZero-take : (n : ℕ) (xs : List ℕ) → AllZero xs → AllZero (take n xs)
AllZero-take zero xs h = tt
AllZero-take (suc n) [] h = tt
AllZero-take (suc n) (x ∷ xs) h = (h.0, AllZero-take n xs h.1)

AllZero-replicate : (n : ℕ) → AllZero (replicate n 0)
AllZero-replicate zero = tt
AllZero-replicate (suc n) = (refl, AllZero-replicate n)

AllSilent-append : (xs ys : List Event) → AllSilent xs → AllSilent ys → AllSilent (xs ++ ys)
AllSilent-append [] ys h k = k
AllSilent-append (fed bytes ∷ xs) ys h k = (h.0, AllSilent-append xs ys h.1 k)
AllSilent-append (amp b ∷ xs) ys h k = AllSilent-append xs ys h k
AllSilent-append (led b ∷ xs) ys h k = AllSilent-append xs ys h k
AllSilent-append (drained ∷ xs) ys h k = AllSilent-append xs ys h k
AllSilent-append (panicked ∷ xs) ys h k = AllSilent-append xs ys h k

-- 16-bit samples of more channels than two, and a buffer that nothing has been converted into.
pub record IsSurround (pl : Player) : Type 0 where
  pub format : pl.client_format ≡ 2
  pub channels : 2 < pl.client_channels
  pub silent : AllZero pl.out_buf

sync_muted-IsSurround :
    (pl : Player) (muted amp_ok : Bool)
    → IsSurround pl
    → IsSurround (sync_muted pl muted amp_ok).0 × AllSilent (sync_muted pl muted amp_ok).1
unfolding sync_muted
sync_muted-IsSurround pl muted amp_ok v = ground arith

module _ (fl : Floats) where
  open fl use {F32, F64}

  convert-surround :
      (src dst : List ℕ) (frames ch fmt : ℕ) (gain : F64)
      → fmt ≡ 2
      → 2 < ch
      → convert_to_s16 fl src dst frames ch 2 fmt gain ≡ dst
  unfolding convert_to_s16
  convert-surround src dst frames ch fmt gain e h =
      let e1 : (ch == 1) ≡ false = ground arith in
      let e2 : (ch == 2) ≡ false = ground arith in rw (e, e1, e2) refl

  play-IsSurround :
      (pl : Player) (gain : F32) (bytes : List ℕ) (frames : ℕ)
      → IsSurround pl
      → IsSurround (play fl pl gain bytes frames).0 × AllSilent (play fl pl gain bytes frames).1
  unfolding play
  play-IsSurround pl gain bytes frames v =
      let src = take (frames * pl.client_fs) bytes in
      let out_sz = frames * pl.hw_fs in
      let out = resize pl.out_buf out_sz in
      let z : AllZero out =
        AllZero-append (take out_sz pl.out_buf) (replicate (out_sz - length pl.out_buf) 0)
          (AllZero-take out_sz pl.out_buf v.silent)
          (AllZero-replicate (out_sz - length pl.out_buf)) in
      let c =
        convert-surround src out frames pl.client_channels pl.client_format (fl.to_f64 gain)
          v.format v.channels in
      let e2 : (pl.client_channels == 2) ≡ false = ground (arith, v.channels) in
      elim (Bool-cases (frames == 0)) [
        | inl e ↦ rw e (v, tt)
        | inr e ↦
            let fm : (pl.client_format == 2) ≡ true = ground (arith, v.format) in
            let cz = subst AllZero (sym c) z in
            rw (e, fm, e2)
              (
                record { format = v.format; channels = v.channels; silent = cz },
                (
                  AllZero-take out_sz
                      (convert_to_s16 fl src out frames pl.client_channels 2 pl.client_format
                        (fl.to_f64 gain))
                      cz,
                  tt,
                ),
              )
      ]

  stdin_loop-AllSilent :
      (pl : Player) (turns : List (Turn F32 × List ℕ))
      → IsSurround pl
      → AllSilent (stdin_loop fl pl turns)
  unfolding stdin_loop
  stdin_loop-AllSilent pl [] v = tt
  stdin_loop-AllSilent pl ((t, []) ∷ turns) v =
      AllSilent-append (sync_muted pl t.muted_sync t.amp_ok).1 (drained ∷ [])
        (sync_muted-IsSurround pl t.muted_sync t.amp_ok v).1 tt
  stdin_loop-AllSilent pl ((t, b ∷ bs) ∷ turns) v =
      let s = sync_muted-IsSurround pl t.muted_sync t.amp_ok v in
      let buf = b ∷ bs in
      let pl1 = (sync_muted pl t.muted_sync t.amp_ok).0 in
      let frames = length buf / pl.client_fs in
      let bytes = take (frames * pl.client_fs) buf in
      let p = play-IsSurround pl1 t.gain bytes frames s.0 in
      let next = stdin_loop-AllSilent (play fl pl1 t.gain bytes frames).0 turns p.0 in
      let held = stdin_loop-AllSilent pl1 turns s.0 in
      AllSilent-append (sync_muted pl t.muted_sync t.amp_ok).1 _ s.1
        (elim (Bool-cases (holds_back fl pl1 t)) [
          | inl e ↦ rw e held
          | inr e ↦ elim (Bool-cases (pl.client_fs == 0)) [
            | inl z ↦ rw (e, z) tt
            | inr z ↦ rw (e, z) (AllSilent-append (play fl pl1 t.gain bytes frames).1 _ p.1 next)
          ]
        ])

  -- Whatever comes on the standard input, of samples with three or more channels nothing but zeros
  -- is ever fed to the backend.
  pub play_stdin-AllSilent :
      (rate channels : ℕ) (route : Route) (amp_ok : Bool) (s : ServerState)
      (turns : List (Turn F32 × List ℕ))
      → 2 < channels
      → AllSilent (play_stdin fl rate channels route amp_ok s turns)
  unfolding play_stdin open_player audio_cfg
  play_stdin-AllSilent rate channels route amp_ok s turns h =
      let opened = open_player (audio_cfg rate channels 2) route amp_ok s in
      stdin_loop-AllSilent opened.0 turns (record { format = refl; channels = h; silent = tt })
