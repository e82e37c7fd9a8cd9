-- ===== src/Server/Player/Whole.antt =====
-- What a player of stereo samples at full volume feeds to the backend.
use audiod.Prelude.{
  ℕ, zero, suc, ◌*◌, ◌/◌, ◌^◌, ◌<◌, ◌≡◌, refl, sym, ap, ap₂, ◌∙◌, inl, inr, Bool, true, false, some,
  List, [], ◌∷◌, ◌++◌, arith, ◌==◌, if◌then◌else◌, ==_iff, Bool-cases, length, take, drop,
  length-drop,
}
use mathlib.Core.Path.{subst}
use mathlib.Core.List.{append_assoc, append-nil}
use audiod.Prelude.Float.{Floats}
use audiod.Server.Player.{
  Event, fed, amp, led, drained, panicked, Player, open_player, sync_muted, Turn, is_unity, play,
  holds_back, wav_loop, play_wav,
}
use audiod.Common.Audio.{audio_cfg}
use audiod.Server.State.{ServerState, Route}
use audiod.Server.Wav.Round.{header_of, load_wav-header_of}

-- The samples that a trace feeds to the backend, and whether it ends with the backend drained.
abbrev pub fed_bytes : List Event → List ℕ
fed_bytes [] = []
fed_bytes (fed bytes ∷ events) = bytes ++ fed_bytes events
fed_bytes (amp b ∷ events) = fed_bytes events
fed_bytes (led b ∷ events) = fed_bytes events
fed_bytes (drained ∷ events) = fed_bytes events
fed_bytes (panicked ∷ events) = fed_bytes events

abbrev pub EndsDrained : List Event → Type 0
EndsDrained [] = ⊥
EndsDrained (e ∷ []) = e ≡ drained
EndsDrained (e ∷ f ∷ events) = EndsDrained (f ∷ events)

pub EndsDrained-append : (xs ys : List Event) → EndsDrained ys → EndsDrained (xs ++ ys)
EndsDrained-append [] ys h = h
EndsDrained-append (x ∷ []) [] h = absurd h
EndsDrained-append (x ∷ []) (y ∷ ys) h = h
EndsDrained-append (x ∷ x' ∷ xs) ys h = EndsDrained-append (x' ∷ xs) ys h

-- A player of 16-bit stereo samples over a codec that takes the mute.
pub record IsStereo (pl : Player) : Type 0 where
  pub format : pl.client_format ≡ 2
  pub channels : pl.client_channels ≡ 2
  pub frame_size : pl.client_fs ≡ 4
  pub in_hardware : pl.hw_mute ≡ true

pub sync_muted-IsStereo :
    (pl : Player) (muted amp_ok : Bool) → IsStereo pl → IsStereo (sync_muted pl muted amp_ok).0
unfolding sync_muted
sync_muted-IsStereo pl muted amp_ok v = ground arith

pub fed_bytes-append : (xs ys : List Event) → fed_bytes (xs ++ ys) ≡ fed_bytes xs ++ fed_bytes ys
fed_bytes-append [] ys = refl
fed_bytes-append (fed bytes ∷ xs) ys =
    rw (fed_bytes-append xs ys) (sym (append_assoc bytes (fed_bytes xs) (fed_bytes ys)))
fed_bytes-append (amp b ∷ xs) ys = fed_bytes-append xs ys
fed_bytes-append (led b ∷ xs) ys = fed_bytes-append xs ys
fed_bytes-append (drained ∷ xs) ys = fed_bytes-append xs ys
fed_bytes-append (panicked ∷ xs) ys = fed_bytes-append xs ys

pub fed_bytes-sync :
    (pl : Player) (muted amp_ok : Bool) → fed_bytes (sync_muted pl muted amp_ok).1 ≡ []
unfolding sync_muted
fed_bytes-sync pl muted amp_ok = ground arith

pub take-length_min : (n : ℕ) (xs : List ℕ) → take n (take n xs) ≡ take n xs
take-length_min zero xs = refl
take-length_min (suc n) [] = refl
take-length_min (suc n) (x ∷ xs) = ap (◌∷◌ x) (take-length_min n xs)

module _ (fl : Floats) where
  open fl use {F32}

  pub play_unity :
      (pl : Player) (gain : F32) (bytes : List ℕ) (frames : ℕ)
      → IsStereo pl
      → is_unity fl gain ≡ true
      → play fl pl gain bytes frames
        ≡ (pl, if frames == 0 then [] else fed (take (frames * 4) bytes) ∷ [])
  unfolding play
  play_unity pl gain bytes frames v u = rw (v.format, v.channels, v.frame_size, u) (ground arith)

  -- With the changes of mute in front, which feed nothing.
  unfoldable pub Plays : List Event → List ℕ → Type 0
  Plays events bytes = (fed_bytes events ≡ bytes) × EndsDrained events

  pub Plays-synced :
      (pl : Player) (t : Turn F32) (events : List Event) (bytes : List ℕ)
      → Plays events bytes
      → Plays ((sync_muted pl t.muted_sync t.amp_ok).1 ++ events) bytes
  unfolding Plays
  Plays-synced pl t events bytes (e, d) =
      let synced = (sync_muted pl t.muted_sync t.amp_ok).1 in
      (
        fed_bytes-append synced events ∙ rw (fed_bytes-sync pl t.muted_sync t.amp_ok) e,
        EndsDrained-append synced events d,
      )

  -- Mute in hardware holds nothing back, and a frame has four bytes.
  pub ready :
      (pl : Player) (t : Turn F32)
      → IsStereo pl
      → (holds_back fl (sync_muted pl t.muted_sync t.amp_ok).0 t ≡ false)
        × ((pl.client_fs == 0) ≡ false)
  unfolding holds_back
  ready pl t v = (
    ground (arith, (sync_muted-IsStereo pl t.muted_sync t.amp_ok v).in_hardware),
    ground (arith, v.frame_size),
  )

  -- A turn that finds less than a frame is the last one.
  wav_loop-short :
      (pl : Player) (left : List ℕ) (t : Turn F32) (turns : List (Turn F32))
      → IsStereo pl
      → length left < 4
      → Plays (wav_loop fl pl left (t ∷ turns)) []
  unfolding wav_loop Plays
  wav_loop-short pl [] t turns v h = (refl, refl)
  wav_loop-short pl (b ∷ bs) t turns v h =
      let r = ready pl t v in
      let z : (suc (length bs) / pl.client_fs == 0) ≡ true = ground (arith, v.frame_size) in
      rw (r.0, r.1, z) (Plays-synced pl t (drained ∷ []) [] (refl, refl))

  wav_loop-step :
      (pl : Player) (b : ℕ) (bs : List ℕ) (t : Turn F32) (turns : List (Turn F32))
      → IsStereo pl
      → is_unity fl t.gain ≡ true
      → (length (b ∷ bs) / 4 == 0) ≡ false
      → let n = length (b ∷ bs) / 4 * 4 in
        let (pl1, synced) = sync_muted pl t.muted_sync t.amp_ok in
        wav_loop fl pl (b ∷ bs) (t ∷ turns)
        ≡ synced ++ fed (take n (take n (b ∷ bs))) ∷ wav_loop fl pl1 (drop n (b ∷ bs)) turns
  unfolding wav_loop
  wav_loop-step pl b bs t turns v u z =
      let left = b ∷ bs in
      let (pl1, synced) = sync_muted pl t.muted_sync t.amp_ok in
      let r = ready pl t v in
      let fr = ap (λ c. length left / c) v.frame_size in
      let cb = ap (λ c. length left / c * c) v.frame_size in
      let zf : (length left / pl.client_fs == 0) ≡ false = rw fr z in
      let p =
        play_unity pl1 t.gain (take (length left / 4 * 4) left) (length left / 4)
          (sync_muted-IsStereo pl t.muted_sync t.amp_ok v) u in
      let after = λ (c : ℕ) (q : Player × List Event).
        synced ++ (q.1 ++ wav_loop fl q.0 (drop c left) turns) in
      rw (r.0, r.1, zf) refl
      ∙ (ap₂ (λ (f : ℕ) (c : ℕ). after c (play fl pl1 t.gain (take c left) f)) fr cb
          ∙ (ap (after (length left / 4 * 4)) p ∙ rw z refl))

  -- The loop from any place of the file on, over two turns or more.
  pub wav_loop_lem :
      (pl : Player) (left : List ℕ) (t t' : Turn F32) (turns : List (Turn F32))
      → IsStereo pl
      → is_unity fl t.gain ≡ true
      → (fed_bytes (wav_loop fl pl left (t ∷ t' ∷ turns)) ≡ take (length left / 4 * 4) left)
        × EndsDrained (wav_loop fl pl left (t ∷ t' ∷ turns))
  unfolding Plays
  wav_loop_lem pl left t t' turns v u = elim (Bool-cases (length left / 4 == 0)) [
    | inl z ↦
        let k : length left / 4 * 4 ≡ 0 = omega (arith, (==_iff _ _).0 z) in
        rw k (wav_loop-short pl left t (t' ∷ turns) v (omega (arith, (==_iff _ _).0 z)))
    | inr z ↦ whole left z
  ]
    where
      whole :
          (left : List ℕ)
          → (length left / 4 == 0) ≡ false
          → Plays (wav_loop fl pl left (t ∷ t' ∷ turns)) (take (length left / 4 * 4) left)
      whole [] z = absurd (ground arith)
      whole (b ∷ bs) z =
          let l = b ∷ bs in
          let n = length l / 4 * 4 in
          let (pl1, synced) = sync_muted pl t.muted_sync t.amp_ok in
          let v1 = sync_muted-IsStereo pl t.muted_sync t.amp_ok v in
          let rest = wav_loop fl pl1 (drop n l) (t' ∷ turns) in
          let w = wav_loop-short pl1 (drop n l) t' turns v1 (omega (arith, length-drop n l)) in
          let part = take n (take n l) in
          subst (λ (e : List Event). Plays e (take n l))
            (sym (wav_loop-step pl b bs t (t' ∷ turns) v u z))
            (Plays-synced pl t (fed part ∷ rest) (take n l) (
              ap (λ (r : List ℕ). part ++ r) w.0 ∙ (append-nil part ∙ take-length_min n l),
              EndsDrained-append (fed part ∷ []) rest w.1,
            ))

  pub opened-IsStereo :
      (rate : ℕ) (route : Route) (s : ServerState)
      → IsStereo (open_player (audio_cfg rate 2 2) route true s).0
  unfolding open_player audio_cfg
  opened-IsStereo rate route s = ground arith

  -- A WAV file of 16-bit stereo samples, of the usual layout, with a rate and a size of the
  -- samples below 2^32, is played within two turns of the loop if the codec takes the mute and the
  -- volume is full in the first: the backend is fed all whole frames of the file, in order and
  -- unchanged, whether the server is muted or not, and is drained at the end.
  pub play_wav_lem :
      (rate : ℕ) (samples rest : List ℕ) (route : Route) (s : ServerState) (t t' : Turn F32)
      (turns : List (Turn F32))
      → rate < 2 ^ 32
      → length samples < 2 ^ 32
      → is_unity fl t.gain ≡ true
      → let file = header_of rate 2 (length samples) ++ samples ++ rest in
        (events : List Event) × (play_wav fl file route true s (t ∷ t' ∷ turns) ≡ some events)
        × (fed_bytes events ≡ take (length samples / 4 * 4) samples)
        × EndsDrained events
  unfolding play_wav
  play_wav_lem rate samples rest route s t t' turns hr hs u =
      let e = load_wav-header_of rate 2 samples rest hr (omega arith) hs in
      let opened = open_player (audio_cfg rate 2 2) route true s in
      let w = wav_loop_lem opened.0 samples t t' turns (opened-IsStereo rate route s) u in
      let tail = wav_loop fl opened.0 samples (t ∷ t' ∷ turns) in
      (
        opened.2 ++ tail,
        rw (e, play_wav) refl,
        fed_bytes-append opened.2 tail ∙ w.0,
        EndsDrained-append opened.2 tail w.1,
      )
