-- ===== src/Server/Backend.antt =====
-- server/src/backend.rs: the facade over the driver, and how it keeps the DMA ring from running
-- full. The loops run on fuel, a round of which may also be a short sleep; `none` in the place of
-- the rest is a run that has been given no more rounds.
pub mod Pacing
use audiod.Prelude.{
  ℕ, zero, suc, ◌+◌, ◌-◌, ◌*◌, ◌/◌, ◌%◌, ◌^◌, ◌≤◌, ◌<◌, min, max, ◌≡◌, refl, sym, ap, ap₂, ◌∙◌, ◌≢◌,
  ◌↔◌, ◌⊎◌, inl, inr, Bool, true, false, not, ◌&&◌, ◌||◌, Option, none, some, List, [], ◌∷◌, ◌++◌,
  map, arith, ltb, leb, ◌==◌, if◌then◌else◌, ltb→lt, lt→ltb, ==_iff, Bool-cases, Option-cases,
  length, get_or, take, drop, replicate, slice, blit, tabulate, length-append, length-replicate,
  length-take, length-drop, take-append-drop, length-blit, length-tabulate, get_or-blit_in,
  get_or-blit_out, tabulate_ext, tabulate_self, tabulate-add, tabulate-slice, get_or-take,
  get_or-drop, concat, take-nil, drop-nil, take-tabulate, drop-tabulate, bit_and, bit_or, ◌>>=◌,
}
use audiod.Common.Audio.{shim_server_frames}
use audiod.Hda.Device.{Device, Log}
use audiod.Hda.Rate.{rate_supported}
use audiod.Hda.Codec
use audiod.Hda.Playback
use audiod.Server.State.{Route}
use audiod.Hda.Playback.{HdaPlayback, frame_bytes}

abbrev pub hda_rates : List ℕ
hda_rates =
    192000 ∷ 176400 ∷ 96000 ∷ 88200 ∷ 48000 ∷ 44100 ∷ 32000 ∷ 24000 ∷ 22050 ∷ 16000 ∷ 12000 ∷ 11025
    ∷ 8000 ∷ []

abbrev pub abs_diff : ℕ → ℕ → ℕ
abs_diff a b = (a - b) + (b - a)

-- Nearer by difference, and then the lower one.
abbrev pub nearer : ℕ → ℕ → ℕ → Bool
nearer rate a b =
    ltb (abs_diff a rate) (abs_diff b rate) || ((abs_diff a rate == abs_diff b rate) && leb a b)

-- `min_by_key` over the rates that are to come, the first of the least.
unfoldable pub nearest_of : ℕ → ℕ → List ℕ → ℕ
nearest_of rate best [] = best
nearest_of rate best (r ∷ rates) =
    if nearer rate best r then nearest_of rate best rates else nearest_of rate r rates

unfoldable pub nearest_hda_rate : ℕ → ℕ
nearest_hda_rate rate = nearest_of rate 192000 (drop 1 hda_rates)

-- The rate at which `open` runs the link.
unfoldable pub hw_rate : ℕ → ℕ
hw_rate rate = if rate_supported rate then rate else nearest_hda_rate rate

-- `open` of a process of user `euid`, up to the opening of the driver: the rate that the driver is
-- opened at, or `none` where permission is denied.
unfoldable pub open_rate : ℕ → ℕ → Option ℕ
unfolding hw_rate
open_rate euid rate = if euid == 0 then some (hw_rate rate) else none

-- `set_mute`: the verbs, and whether it was applied.
unfoldable pub set_mute : Codec.Answers → ℕ → Bool → List Codec.Verb × Bool
set_mute ans cad mute = Codec.set_mute ans cad mute

-- `output_path`, by the name under which `store_output_path` knows it.
unfoldable pub output_path : Codec.Answers → ℕ → Route
output_path ans cad = elim (Codec.output_path ans cad) [
  | Codec.to_headphone ↦ Route.headphone
  | Codec.to_speakers ↦ Route.speakers
  | Codec.not_known ↦ Route.unknown
]

-- How many bytes a round of `play` offers, of `left` that are to come.
unfoldable pub offer : ℕ → ℕ → ℕ
offer delay left = min left ((shim_server_frames - delay) * frame_bytes)

module _ (bus : Device) (log : Log) where
  open bus use {D}

  unfoldable pub play : ℕ → HdaPlayback → List ℕ → D → Option (List ℕ × HdaPlayback × D)
  play zero p samples d = some (samples, p, d)
  play (suc fuel) p [] d = some ([], p, d)
  play (suc fuel) p (b ∷ samples) d =
      let (delay, d1) = Playback.delay_frames bus p d in
      let wanted = take (offer delay (length (b ∷ samples))) (b ∷ samples) in
      elim (leb shim_server_frames delay) [
        | true ↦ play fuel p (b ∷ samples) d1
        | false ↦ elim (Playback.play bus log p wanted d1) [
          | none ↦ none
          | some (n, p', d2) ↦ play fuel p' (drop n (b ∷ samples)) d2
        ]
      ]

  unfoldable pub push : ℕ → HdaPlayback → List ℕ → D → Option (List ℕ × HdaPlayback × D)
  push zero p samples d = some (samples, p, d)
  push (suc fuel) p [] d = some ([], p, d)
  push (suc fuel) p (b ∷ samples) d = elim (Playback.play bus log p (b ∷ samples) d) [
    | none ↦ none
    | some (n, p', d') ↦ push fuel p' (drop n (b ∷ samples)) d'
  ]

  -- `drain` ends with the stream stopped.
  unfoldable pub drain : ℕ → HdaPlayback → D → Option (HdaPlayback × D)
  drain zero p d = none
  drain (suc fuel) p d =
      let (delay, d1) = Playback.delay_frames bus p d in
      elim (ltb 0 delay) [ true ↦ drain fuel p d1 | false ↦ some (Playback.stop bus p d1) ]
