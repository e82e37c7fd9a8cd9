-- ===== src/Shim/Wire.antt =====
-- From the shim's ring over the socket to the reader's events.
use audiod.Prelude.{
  ℕ, zero, suc, ◌+◌, ◌%◌, ◌^◌, ◌≤◌, ◌<◌, min, ◌≡◌, refl, sym, ap, ◌∙◌, ◌⊎◌, inl, inr, true, false,
  Option, some, List, [], ◌∷◌, ◌++◌, arith, ltb, ◌==◌, ltb→lt, lt→ltb, Bool-cases, length, take,
  drop, length-take, length-tabulate,
}
use mathlib.Core.List.{append-nil}
use audiod.Prelude.Bytes.{u32_le, le_u16, le_u32}
use audiod.Prelude.Float.{Floats}
use audiod.Common.Audio.{AudioCfg, audio_cfg, drain_chunk}
use audiod.Common.Ring
use audiod.Common.Ring.{Ring, copy_out}
use audiod.Common.Ring.Inv
use audiod.Common.Ring.Inv.{copy_out-IsValid}
use audiod.Common.Ring.Queue.{byte_at, contents, copy_out_lem, copy_out_frame}
use audiod.Server.Command.{parse_header}
use audiod.Server.Reader.{reader_loop, is_direct, on_chunk}
use audiod.Server.Reader.Frames.{pcm_frame, pcm_frames, read_frame-pcm}
use audiod.Server.Dsp.Resampler.{Resampler}
use audiod.Shim.{Pcm, header_bytes, frame_bytes}
use audiod.Shim.Drain.{Env, send_mute, send_flush, send_chunk, drain_round}

-- For a rate from 1 to 2^32 - 1, 1 to 8 channels and the format 2 or 14, the server parses the
-- header that the shim sends to just these.
pub parse_header-header_bytes :
    (rate channels format : ℕ)
    → 0 < rate
    → rate < 2 ^ 32
    → 0 < channels
    → channels ≤ 8
    → (format ≡ 2) ⊎ (format ≡ 14)
    → parse_header (header_bytes rate channels format) ≡ some (audio_cfg rate channels format)
unfolding parse_header header_bytes
parse_header-header_bytes rate channels format a b c d e =
    let bytes = header_bytes rate channels format in
    let r : le_u32 bytes 0 ≡ rate = omega arith in
    let n : le_u16 bytes 4 ≡ channels = omega arith in
    let f : le_u16 bytes 6 ≡ format = omega arith in ground arith

frame_bytes_lem :
    (payload : List ℕ) → length payload < 2 ^ 32 → frame_bytes payload ≡ pcm_frame payload
unfolding frame_bytes
frame_bytes_lem payload h =
    let e : length payload % 2 ^ 32 ≡ length payload = omega arith in
    ap (λ (n : ℕ). u32_le n ++ payload) e

module _ (fl : Floats) where
  open fl use {F32}

  -- A command byte that the shim sends as a frame of length 1 has no effect at all on the reader
  -- of a stereo stream at the mix rate, which goes on with what follows.
  pub shim_command_ignored :
      (op fuel mix_rate : ℕ) (cfg : AudioCfg) (resampler : Option (Resampler F32)) (rest : List ℕ)
      → is_direct fl cfg mix_rate ≡ true
      → reader_loop fl (suc fuel) cfg mix_rate resampler (frame_bytes (op ∷ []) ++ rest)
        ≡ reader_loop fl fuel cfg mix_rate resampler rest
  unfolding reader_loop on_chunk
  shim_command_ignored op fuel mix_rate cfg resampler rest d =
      rw
        (
          frame_bytes_lem (op ∷ []) (omega arith),
          read_frame-pcm fl (op ∷ []) rest (omega arith) (omega arith),
          reader_loop,
        )
        (rw d)

-- A handle whose drain thread has nothing to do but to carry PCM over a live connection.
pub record Flowing (h : Pcm) : Type 0 where
  pub live : h.connected ≡ true
  pub wanted : h.drain_stop ≡ false
  pub unmuted : h.mute_cmd ≡ 0
  pub unflushed : h.flush_cmd ≡ false
  pub open_ring : h.ring.interrupted ≡ false
  pub ring_valid : Inv.IsValid h.ring

-- The chunk that a round takes of what is held.
abbrev pub first_chunk : List ℕ → List (List ℕ)
first_chunk [] = []
first_chunk (x ∷ xs) = take drain_chunk (x ∷ xs) ∷ []

-- The chunks that `k` rounds take.
abbrev pub chunks_of : ℕ → List ℕ → List (List ℕ)
chunks_of zero xs = []
chunks_of (suc k) xs = first_chunk xs ++ chunks_of k (drop drain_chunk xs)

abbrev pub AllSent : List Env → Type 0
AllSent [] = Unit {0}
AllSent (env ∷ envs) = (env.chunk_sent ≡ true) × AllSent envs

-- A handle that has noted what it was to tell the server.
abbrev told : Pcm → Pcm
told h = record h { mute_cmd = 0; flush_cmd = false }

told_lem :
    (env : Env) (h : Pcm)
    → h.drain_stop ≡ false
    → h.mute_cmd ≡ 0
    → h.flush_cmd ≡ false
    → drain_round env h ≡ send_chunk env (told h)
unfolding drain_round send_mute send_flush
told_lem env h a b c = rw (a, b, c) refl

-- A chunk that goes out.
send_chunk_some :
    (env : Env) (h : Pcm)
    → env.chunk_sent ≡ true
    → h.connected ≡ true
    → h.ring.interrupted ≡ false
    → ltb 0 h.ring.filled ≡ true
    → (length (copy_out h.ring drain_chunk).0 == 0) ≡ false
    → send_chunk env h ≡ (
      record h {
        ring = (copy_out h.ring drain_chunk).1;
        sent = h.sent ++ frame_bytes (copy_out h.ring drain_chunk).0;
        total_written = h.total_written + length (copy_out h.ring drain_chunk).0;
      },
      true,
    )
unfolding send_chunk Ring.pop
send_chunk_some env h c l i f n = ground arith

send_chunk_none :
    (env : Env) (h : Pcm)
    → h.ring.interrupted ≡ false
    → ltb 0 h.ring.filled ≡ false
    → send_chunk env h ≡ (h, true)
unfolding send_chunk Ring.pop
send_chunk_none env h i f = ground arith

not_empty : (a b : ℕ) → 0 < b → a ≡ min drain_chunk b → (a == 0) ≡ false
not_empty a b h e = ground arith

first_chunk_none : (xs : List ℕ) → length xs ≡ 0 → pcm_frames (first_chunk xs) ≡ []
first_chunk_none [] h = refl
first_chunk_none (x ∷ xs) h = absurd (omega arith)

first_chunk_some :
    (xs : List ℕ) → 0 < length xs → pcm_frames (first_chunk xs) ≡ frame_bytes (take drain_chunk xs)
first_chunk_some [] h = absurd (omega arith)
first_chunk_some (x ∷ xs) h =
    let bytes = take drain_chunk (x ∷ xs) in
    let m : length bytes < 2 ^ 32 = omega (arith, length-take drain_chunk (x ∷ xs)) in
    append-nil (pcm_frame bytes) ∙ sym (frame_bytes_lem bytes m)

drop_empty : (xs : List ℕ) → length xs ≡ 0 → xs ≡ drop drain_chunk xs
drop_empty [] h = refl
drop_empty (x ∷ xs) h = absurd (omega arith)

-- A round takes one chunk, if there is any, and sends it.
pub round_lem :
    (env : Env) (h : Pcm)
    → env.chunk_sent ≡ true
    → Flowing h
    → let (h', more) = drain_round env h in
      (more ≡ true)
      × Flowing h'
      × (contents h'.ring ≡ drop drain_chunk (contents h.ring))
      × (h'.sent ≡ h.sent ++ pcm_frames (first_chunk (contents h.ring)))
round_lem env h c f =
    let r = told_lem env h f.wanted f.unmuted f.unflushed in
    let n = length-tabulate h.ring.filled (byte_at h.ring) in
    let xs = contents h.ring in
    elim (Bool-cases (ltb 0 h.ring.filled)) [
      | inl e ↦
          let p = ltb→lt 0 h.ring.filled e in
          let pos : 0 < length xs = omega (arith, n) in
          let out = copy_out_lem h.ring drain_chunk f.ring_valid in
          let b : length (copy_out h.ring drain_chunk).0 ≡ min drain_chunk (length xs) =
            ap (λ (l : List ℕ). length l) out.0 ∙ length-take drain_chunk xs in
          let s = send_chunk_some env (told h) c f.live f.open_ring e (not_empty _ _ pos b) in
          rw (r, s)
            (
              refl,
              record {
                live = f.live;
                wanted = f.wanted;
                unmuted = refl;
                unflushed = refl;
                open_ring = (copy_out_frame h.ring drain_chunk).1 ∙ f.open_ring;
                ring_valid = copy_out-IsValid h.ring drain_chunk f.ring_valid;
              },
              out.1,
              ap (◌++◌ h.sent) (ap frame_bytes out.0 ∙ sym (first_chunk_some xs pos)),
            )
      | inr e ↦
          let s = send_chunk_none env (told h) f.open_ring e in
          let z : h.ring.filled ≡ 0 = ground (arith, lt→ltb 0 h.ring.filled) in
          rw (r, s)
            (
              refl,
              record {
                live = f.live;
                wanted = f.wanted;
                unmuted = refl;
                unflushed = refl;
                open_ring = f.open_ring;
                ring_valid = f.ring_valid;
              },
              drop_empty xs (n ∙ z),
              sym (ap (◌++◌ h.sent) (first_chunk_none xs (n ∙ z)) ∙ append-nil h.sent),
            )
    ]
