-- ===== src/Shim/Stream.antt =====
-- A whole stream: from the ring of the application, through the drain thread and the socket, to what the
-- reader of the server puts into the client's ring.
use audiod.Prelude.{
  ℕ, zero, suc, ◌+◌, ◌*◌, ◌%◌, ◌≤◌, ◌<◌, ◌≡◌, refl, sym, ap, ap₂, ◌∙◌, true, Option, some, List, [],
  ◌∷◌, ◌++◌, arith, length, take, drop, length-append, length-take, length-drop, concat, take-nil,
}
use mathlib.Core.List.{append_assoc, append-nil}
use audiod.Prelude.Float.{Floats}
use audiod.Common.Audio.{AudioCfg, drain_chunk}
use audiod.Common.Ring.Queue.{contents}
use audiod.Server.Reader.{reader_loop, is_direct}
use audiod.Server.Reader.Frames.{pcm_frame, pcm_frames, AllStereo, ring_bytes, reader_direct}
use audiod.Server.Dsp.Resampler.{Resampler}
use audiod.Prelude.Bytes.{take-append, drop-append}
use audiod.Server.Command.{parse_header}
use audiod.Shim.{Pcm, header_bytes}
use audiod.Shim.Drain.{Env, drain_round, drain_loop}
use audiod.Shim.Wire.{Flowing, first_chunk, chunks_of, AllSent, round_lem}

pcm_frames-append : (us vs : List (List ℕ)) → pcm_frames (us ++ vs) ≡ pcm_frames us ++ pcm_frames vs
pcm_frames-append [] vs = refl
pcm_frames-append (a ∷ us) vs =
    ap (◌++◌ (pcm_frame a)) (pcm_frames-append us vs)
    ∙ sym (append_assoc (pcm_frame a) (pcm_frames us) (pcm_frames vs))

concat-append : (us vs : List (List ℕ)) → concat (us ++ vs) ≡ concat us ++ concat vs
concat-append [] vs = refl
concat-append (a ∷ us) vs =
    ap (◌++◌ a) (concat-append us vs) ∙ sym (append_assoc a (concat us) (concat vs))

AllStereo-append : (us vs : List (List ℕ)) → AllStereo us → AllStereo vs → AllStereo (us ++ vs)
AllStereo-append [] vs p q = q
AllStereo-append (a ∷ us) vs p q = (p.0, AllStereo-append us vs p.1 q)

take-add : (m n : ℕ) (xs : List ℕ) → take (m + n) xs ≡ take m xs ++ take n (drop m xs)
take-add zero n xs = let e : zero + n ≡ n = omega arith in rw e refl
take-add (suc m) n [] = let e : suc m + n ≡ suc (m + n) = omega arith in rw e (sym (take-nil n))
take-add (suc m) n (x ∷ xs) =
    let e : suc m + n ≡ suc (m + n) = omega arith in rw e (ap (◌∷◌ x) (take-add m n xs))

concat-first_chunk : (xs : List ℕ) → concat (first_chunk xs) ≡ take drain_chunk xs
concat-first_chunk [] = refl
concat-first_chunk (x ∷ xs) = append-nil (take drain_chunk (x ∷ xs))

concat-chunks_of : (k : ℕ) (xs : List ℕ) → concat (chunks_of k xs) ≡ take (k * drain_chunk) xs
concat-chunks_of zero xs =
    let e : 0 ≡ zero * drain_chunk = omega arith in ap (λ (n : ℕ). take n xs) e
concat-chunks_of (suc k) xs =
    let e : suc k * drain_chunk ≡ drain_chunk + k * drain_chunk = omega arith in
    concat-append (first_chunk xs) (chunks_of k (drop drain_chunk xs))
    ∙ ap₂ (λ (a b : List ℕ). a ++ b) (concat-first_chunk xs)
        (concat-chunks_of k (drop drain_chunk xs))
    ∙ sym (take-add drain_chunk (k * drain_chunk) xs)
    ∙ ap (λ (n : ℕ). take n xs) (sym e)

first_chunk-AllStereo : (xs : List ℕ) → length xs % 4 ≡ 0 → AllStereo (first_chunk xs)
first_chunk-AllStereo [] h = tt
first_chunk-AllStereo (x ∷ xs) h =
    let m = length-take drain_chunk (x ∷ xs) in
    ((omega (arith, m), omega (arith, m), omega (arith, m)), tt)

chunks_of-AllStereo : (k : ℕ) (xs : List ℕ) → length xs % 4 ≡ 0 → AllStereo (chunks_of k xs)
chunks_of-AllStereo zero xs h = tt
chunks_of-AllStereo (suc k) xs h =
    let m = length-drop drain_chunk xs in
    AllStereo-append (first_chunk xs) (chunks_of k (drop drain_chunk xs))
      (first_chunk-AllStereo xs h) (chunks_of-AllStereo k (drop drain_chunk xs) (omega (arith, m)))

length-first_chunk : (xs : List ℕ) → length (first_chunk xs) ≤ 1
length-first_chunk [] = omega arith
length-first_chunk (x ∷ xs) = omega arith

length-chunks_of : (k : ℕ) (xs : List ℕ) → length (chunks_of k xs) ≤ k
length-chunks_of zero xs = omega arith
length-chunks_of (suc k) xs = omega (
  arith,
  length-append (first_chunk xs) (chunks_of k (drop drain_chunk xs)),
  length-first_chunk xs,
  length-chunks_of k (drop drain_chunk xs),
)

-- What some rounds of a flowing handle send.
sent_lem :
    (envs : List Env) (h : Pcm)
    → AllSent envs
    → Flowing h
    → (drain_loop envs h).sent ≡ h.sent ++ pcm_frames (chunks_of (length envs) (contents h.ring))
unfolding drain_loop
sent_lem [] h a f = sym (append-nil h.sent)
sent_lem (env ∷ envs) h a f =
    let (more, f', rest, s) = round_lem env h a.0 f in
    let h' = (drain_round env h).0 in
    let ih = sent_lem envs h' a.1 f' in
    let xs = contents h.ring in
    rw (more, drain_loop)
      (ih
        ∙ ap₂ (λ (u : List ℕ) (v : List ℕ). u ++ pcm_frames (chunks_of (length envs) v)) s rest
        ∙ append_assoc h.sent (pcm_frames (first_chunk xs))
            (pcm_frames (chunks_of (length envs) (drop drain_chunk xs)))
        ∙ ap (◌++◌ h.sent) (
            sym
              (pcm_frames-append (first_chunk xs) (chunks_of (length envs) (drop drain_chunk xs)))))

module _ (fl : Floats) where
  open fl use {F32}

  -- For a handle that is connected, whose ring is valid, not interrupted and holds whole stereo
  -- frames, that has no pending command and is not to stop, and that has sent just its header,
  -- which the server parses to some configuration: if every write succeeds, then after n rounds of
  -- its drain thread the first twelve bytes sent are parsed to the same, and the rest makes the
  -- reader of that stream, if it is a stereo stream at the mix rate and given more than n rounds,
  -- put exactly the first n times 1024 bytes of the handle's ring into the client's ring, in
  -- order.
  pub drain-reader :
      (envs : List Env) (h : Pcm) (fuel mix_rate rate channels format : ℕ) (cfg : AudioCfg)
      (resampler : Option (Resampler F32))
      → AllSent envs
      → Flowing h
      → h.sent ≡ header_bytes rate channels format
      → parse_header h.sent ≡ some cfg
      → length (contents h.ring) % 4 ≡ 0
      → is_direct fl cfg mix_rate ≡ true
      → length envs < fuel
      → let sent = (drain_loop envs h).sent in
        (parse_header (take 12 sent) ≡ some cfg)
        × (ring_bytes fl (reader_loop fl fuel cfg mix_rate resampler (drop 12 sent))
            ≡ take (length envs * drain_chunk) (contents h.ring))
  unfolding header_bytes
  drain-reader envs h fuel mix_rate rate channels format cfg resampler a f s q w d l =
      let chunks = chunks_of (length envs) (contents h.ring) in
      let e : (drain_loop envs h).sent ≡ h.sent ++ pcm_frames chunks = sent_lem envs h a f in
      let n : length h.sent ≡ 12 = rw s refl in
      let first : take 12 (drain_loop envs h).sent ≡ h.sent =
        ap (take 12) e
        ∙ ap (λ (k : ℕ). take k (h.sent ++ pcm_frames chunks)) (sym n)
        ∙ take-append h.sent (pcm_frames chunks) in
      let rest : drop 12 (drain_loop envs h).sent ≡ pcm_frames chunks =
        ap (drop 12) e
        ∙ ap (λ (k : ℕ). drop k (h.sent ++ pcm_frames chunks)) (sym n)
        ∙ drop-append h.sent (pcm_frames chunks) in
      let r =
        reader_direct fl chunks fuel cfg mix_rate resampler d
          (chunks_of-AllStereo (length envs) (contents h.ring) w)
          (omega (arith, length-chunks_of (length envs) (contents h.ring))) in
      (ap parse_header first ∙ q, rw rest (r.0 ∙ concat-chunks_of (length envs) (contents h.ring)))
