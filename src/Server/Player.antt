-- ===== src/Server/Player.antt =====
-- server/src/player.rs, and the two players of server/src/main.rs, which play a file or what comes
-- on the standard input. The result is the trace of what a player asks of the backend and of the
-- mute LED, in order.
pub mod Whole
pub mod Silence
pub mod Input
use audiod.Prelude.{
  ℕ, ◌-◌, ◌*◌, ◌/◌, Bool, true, false, not, ◌&&◌, Option, none, some, List, [], ◌∷◌, ◌++◌, ◌==◌,
  if◌then◌else◌, length, take, drop, replicate, blit, tabulate, concat,
}
use audiod.Prelude.Bytes.{le_u16, le_u32, u16_le}
use audiod.Prelude.Int.{i16_of, i16_bits}
use audiod.Prelude.Float.{Floats}
use audiod.Common.Audio.{
  AudioCfg, audio_cfg, format_s16_le, format_float_le, format_bytes, hw_format, hw_channels,
}
use audiod.Server.State.{ServerState, Route, store_output_path}
use audiod.Server.Wav.{failed, loaded, load_wav}

-- `Backend::play`, `Backend::set_mute`, the LED, `Backend::drain`, and a division by zero.
pub data Event : Type 0 where
  fed : List ℕ → Event
  amp led : Bool → Event
  drained panicked : Event

pub record Player : Type 0 where
  pub hw_fs : ℕ
  pub client_fs : ℕ
  pub client_channels : ℕ
  pub client_format : ℕ
  pub hw_mute : Bool
  pub muted_applied : Bool
  pub out_buf : List ℕ

-- `Player::open` once the backend is open; `amp_ok` says whether the codec takes the mute.
unfoldable pub open_player :
    AudioCfg → Route → Bool → ServerState → Player × ServerState × List Event
unfolding format_bytes store_output_path
open_player cfg route amp_ok s = (
  record {
    hw_fs = format_bytes hw_format * hw_channels;
    client_fs = cfg.frame_size;
    client_channels = cfg.channels;
    client_format = cfg.format;
    hw_mute = amp_ok;
    muted_applied = false;
    out_buf = [];
  },
  store_output_path s route,
  amp false ∷ led false ∷ [],
)

abbrev pub same : Bool → Bool → Bool
same true b = b
same false b = not b

-- `sync_muted`, which fails where the codec does not take the change.
unfoldable pub sync_muted : Player → Bool → Bool → Player × List Event
sync_muted pl muted amp_ok =
    let applied = record pl { muted_applied = muted } in
    if same muted pl.muted_applied
    then (pl, [])
    else if not pl.hw_mute
    then (applied, led muted ∷ [])
    else if amp_ok
    then (applied, amp muted ∷ led muted ∷ [])
    else (pl, amp muted ∷ [])

-- `Vec::resize` with zeros.
abbrev pub resize : List ℕ → ℕ → List ℕ
resize xs n = take n xs ++ replicate (n - length xs) 0

-- What a turn of a player's loop finds in the shared state, and whether the codec takes a change.
pub record Turn (F : Type 0) : Type 0 where
  pub muted_sync : Bool
  pub muted_now : Bool
  pub amp_ok : Bool
  pub gain : F

module _ (fl : Floats) where
  open fl use {
    F32, F64, from_bits, lit, sub, mul, of_int, to_i16, round, clamp, max32, min32, epsilon, lt, eq,
    abs, neg, to_f32, to_f64,
  }

  -- Sample `i` of 16 bits, and of 32, scaled and cut.
  unfoldable pub scaled : List ℕ → F32 → ℕ → List ℕ
  scaled src g i =
      let sample = mul (of_int (i16_of (le_u16 src (i * 2)))) g in
      u16_le (i16_bits (to_i16 (min32 (max32 (round sample) (neg (lit 32768 0))) (lit 32767 0))))

  unfoldable pub limited : List ℕ → F32 → ℕ → List ℕ
  limited src g i =
      let sample = mul (from_bits (le_u32 src (i * 4))) g in
      u16_le (i16_bits (to_i16 (mul (clamp (neg (lit 1 0)) (lit 1 0) sample) (lit 32767 0))))

  -- The new contents of `dst`: samples from its start on, or what it had.
  unfoldable pub convert_to_s16 : List ℕ → List ℕ → ℕ → ℕ → ℕ → ℕ → F64 → List ℕ
  unfolding scaled limited
  convert_to_s16 src dst frames ch_in ch_out fmt_in gain =
      let g = to_f32 gain in
      let n = frames * ch_in in
      if (fmt_in == format_s16_le) && ((ch_in == 1) && (ch_out == 2))
      then blit dst 0 (concat (tabulate frames (λ i. scaled src g i ++ scaled src g i)))
      else if (fmt_in == format_float_le) && (ch_in == ch_out)
      then blit dst 0 (concat (tabulate n (limited src g)))
      else if (fmt_in == format_float_le) && ((ch_in == 1) && (ch_out == 2))
      then blit dst 0 (concat (tabulate frames (λ i. limited src g i ++ limited src g i)))
      else if (fmt_in == format_s16_le) && ((ch_in == ch_out) && not (eq g (lit 1 0)))
      then blit dst 0 (concat (tabulate n (scaled src g)))
      else dst

  abbrev pub is_unity : F32 → Bool
  is_unity gain = lt (abs (sub gain (lit 1 0))) epsilon

  -- `Player::play` of `frames` frames, which `bytes` holds.
  unfoldable pub play : Player → F32 → List ℕ → ℕ → Player × List Event
  play pl gain bytes frames =
      let src = take (frames * pl.client_fs) bytes in
      let out_sz = frames * pl.hw_fs in
      let passthrough =
        (pl.client_format == hw_format) && ((pl.client_channels == hw_channels) && is_unity gain) in
      let out =
        convert_to_s16 src (resize pl.out_buf out_sz) frames pl.client_channels hw_channels
          pl.client_format (to_f64 gain) in
      if frames == 0
      then (pl, [])
      else if passthrough
      then (pl, fed src ∷ [])
      else (record pl { out_buf = out }, fed (take out_sz out) ∷ [])

  -- A muted player that cannot mute the codec holds the samples back.
  unfoldable pub holds_back : Player → Turn F32 → Bool
  holds_back pl t = not pl.hw_mute && t.muted_now

  -- The loop of `play_stdin`, over its turns and what each reads; nothing at the end of the input.
  unfoldable pub stdin_loop : Player → List (Turn F32 × List ℕ) → List Event
  stdin_loop pl [] = []
  stdin_loop pl ((t, buf) ∷ turns) =
      let (pl1, synced) = sync_muted pl t.muted_sync t.amp_ok in
      let frames = length buf / pl.client_fs in
      let (pl2, played) = play pl1 t.gain (take (frames * pl.client_fs) buf) frames in
      synced ++ elim buf [
        | [] ↦ drained ∷ []
        | b ∷ bs ↦ elim (holds_back pl1 t) [
          | true ↦ stdin_loop pl1 turns
          | false ↦ elim (pl.client_fs == 0) [
            | true ↦ panicked ∷ []
            | false ↦ played ++ stdin_loop pl2 turns
          ]
        ]
      ]

  unfoldable pub play_stdin :
      ℕ → ℕ → Route → Bool → ServerState → List (Turn F32 × List ℕ) → List Event
  unfolding open_player audio_cfg
  play_stdin rate channels route amp_ok s turns =
      let (pl, s', opened) = open_player (audio_cfg rate channels format_s16_le) route amp_ok s in
      opened ++ stdin_loop pl turns

  -- The loop of `play_wav` over the samples that are `left`.
  unfoldable pub wav_loop : Player → List ℕ → List (Turn F32) → List Event
  wav_loop pl left [] = []
  wav_loop pl [] (t ∷ turns) = drained ∷ []
  wav_loop pl (b ∷ bs) (t ∷ turns) =
      let left = b ∷ bs in
      let (pl1, synced) = sync_muted pl t.muted_sync t.amp_ok in
      let frames = length left / pl.client_fs in
      let cbytes = frames * pl.client_fs in
      let (pl2, played) = play pl1 t.gain (take cbytes left) frames in
      synced ++ elim (holds_back pl1 t) [
        | true ↦ wav_loop pl1 (b ∷ bs) turns
        | false ↦ elim (pl.client_fs == 0) [
          | true ↦ panicked ∷ []
          | false ↦ elim (frames == 0) [
            | true ↦ drained ∷ []
            | false ↦ played ++ wav_loop pl2 (drop cbytes left) turns
          ]
        ]
      ]

  -- `play_wav` of a file; `none` is an error of the file.
  unfoldable pub play_wav :
      List ℕ → Route → Bool → ServerState → List (Turn F32) → Option (List Event)
  unfolding open_player
  play_wav file route amp_ok s turns = elim (load_wav file) [
    | failed e ↦ none
    | loaded cfg samples ↦
        let (pl, s', opened) = open_player cfg route amp_ok s in
        some (opened ++ wav_loop pl samples turns)
  ]
