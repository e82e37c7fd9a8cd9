-- ===== src/Server/Mixer/Sum.antt =====
-- What the mixer makes of the bytes of its clients.
use audiod.Prelude.{
  ℕ, zero, suc, ◌+◌, ◌-◌, ◌*◌, ◌/◌, ◌%◌, ◌<◌, min, ◌≡◌, refl, sym, ap, ◌∙◌, inl, inr, true, false,
  List, [], ◌∷◌, arith, ◌==◌, ==_iff, Bool-cases, length, get_or, take, drop, length-tabulate,
}
use audiod.Prelude.Int.{ℤ, pos, ◌+ℤ◌, wrap32, wrap32_add, +ℤ_assoc, +ℤ_zero, zero_+ℤ, i16_of}
use audiod.Common.Ring.{try_pop}
use audiod.Common.Ring.Inv.{IsValid}
use audiod.Prelude.Splits.{take-min, drop-min}
use audiod.Common.Ring.Queue.{contents, byte_at}
use audiod.Common.Ring.Reading.{try_pop-Taken}
use audiod.Server.Mixer.{MixerStream, add_samples, mix_streams, all_dry}
use audiod.Server.Mixer.Pace.{length-add_samples}

-- The sample at `i` of some bytes, silence behind their end.
abbrev pub sample_at : List ℕ → ℕ → ℤ
sample_at [] i = pos 0
sample_at (lo ∷ []) i = pos 0
sample_at (lo ∷ hi ∷ bytes) zero = i16_of (lo + 256 * hi)
sample_at (lo ∷ hi ∷ bytes) (suc i) = sample_at bytes i

add_samples_at :
    (acc : List ℤ) (bytes : List ℕ) (i : ℕ) (x : ℤ)
    → i < length acc
    → get_or acc i (pos 0) ≡ wrap32 x
    → get_or (add_samples acc bytes) i (pos 0) ≡ wrap32 (x +ℤ sample_at bytes i)
unfolding add_samples
add_samples_at [] bytes i x h e = absurd (omega arith)
add_samples_at (v ∷ acc) [] i x h e = e ∙ ap wrap32 (sym (+ℤ_zero x))
add_samples_at (v ∷ acc) (lo ∷ []) i x h e = e ∙ ap wrap32 (sym (+ℤ_zero x))
add_samples_at (v ∷ acc) (lo ∷ hi ∷ bytes) zero x h e =
    let a = i16_of (lo + 256 * hi) in ap (λ (y : ℤ). wrap32 (y +ℤ a)) e ∙ wrap32_add x a
add_samples_at (v ∷ acc) (lo ∷ hi ∷ bytes) (suc i) x h e =
    add_samples_at acc bytes i x (omega arith) e

-- A client's ring is valid, nobody interrupts its reader, and it holds whole frames.
pub record IsWhole (s : MixerStream) : Type 0 where
  pub valid : IsValid s.ring
  pub calm : s.ring.interrupted ≡ false
  pub frames : s.ring.filled % 4 ≡ 0

abbrev pub AllWhole : List MixerStream → Type 0
AllWhole [] = Unit {0}
AllWhole (s ∷ streams) = IsWhole s × AllWhole streams

-- What is queued for the next `n` frames.
abbrev pub queued : ℕ → MixerStream → List ℕ
queued n s = take (n * 4) (contents s.ring)

-- The sum of the clients' samples at `i`.
abbrev pub total_at : ℕ → List MixerStream → ℕ → ℤ
total_at n [] i = pos 0
total_at n (s ∷ streams) i = sample_at (queued n s) i +ℤ total_at n streams i

-- The sum, wrapped around to 32 bits.
abbrev pub heard_at : ℕ → List MixerStream → ℕ → ℤ
heard_at n streams i = wrap32 (total_at n streams i)

want_of : (k filled : ℕ) → filled % 4 ≡ 0 → min k (filled / 4 * 4) ≡ min k filled
want_of k filled h = omega arith

-- What is left of a client behind the next `n` frames.
pub record Rest (n : ℕ) (s s' : MixerStream) : Type 0 where
  pub bytes : contents s'.ring ≡ drop (n * 4) (contents s.ring)
  pub left : s'.ring.filled ≡ s.ring.filled - n * 4
  pub whole : IsWhole s'
  pub same_done : s'.done ≡ s.done
  pub same_flush : s'.flush ≡ s.flush

-- A client's turn: what it adds, and what is left of it.
pop_whole :
    (n : ℕ) (s : MixerStream)
    → IsWhole s
    → let (got, ring) = try_pop s.ring (min (n * 4) (s.ring.filled / 4 * 4)) in
      (got ≡ queued n s) × Rest n s (record s { ring = ring })
pop_whole n s v =
    let want = min (n * 4) (s.ring.filled / 4 * 4) in
    let t = try_pop-Taken s.ring want v.valid v.calm in
    let k = contents s.ring in
    let l = length-tabulate s.ring.filled (byte_at s.ring) in
    let e : want ≡ min (n * 4) (length k) =
      want_of (n * 4) s.ring.filled v.frames ∙ ap (min (n * 4)) (sym l) in
    (
      t.bytes ∙ (ap (λ i. take i k) e ∙ take-min (n * 4) k),
      record {
        bytes = t.rest ∙ (ap (λ i. drop i k) e ∙ drop-min (n * 4) k);
        left = omega (arith, t.left, v.frames);
        whole = record { valid = t.valid; calm = t.calm; frames = omega (arith, t.left, v.frames) };
        same_done = refl;
        same_flush = refl;
      },
    )

-- A client that is passed over has nothing for it.
pass_whole :
    (n : ℕ) (s : MixerStream)
    → IsWhole s
    → min (n * 4) (s.ring.filled / 4 * 4) ≡ 0
    → (queued n s ≡ []) × Rest n s s
pass_whole n s v z =
    let k = contents s.ring in
    let l = length-tabulate s.ring.filled (byte_at s.ring) in
    let e : min (n * 4) (length k) ≡ 0 = omega (arith, l, v.frames, z) in
    (
      sym (take-min (n * 4) k) ∙ ap (λ i. take i k) e,
      record {
        bytes = sym (sym (drop-min (n * 4) k) ∙ ap (λ i. drop i k) e);
        left = omega (arith, v.frames, z);
        whole = v;
        same_done = refl;
        same_flush = refl;
      },
    )

-- Client by client, in order.
abbrev pub AllRest : ℕ → List MixerStream → List MixerStream → Type 0
AllRest n [] [] = Unit {0}
AllRest n [] (s' ∷ left) = ⊥
AllRest n (s ∷ streams) [] = ⊥
AllRest n (s ∷ streams) (s' ∷ left) = Rest n s s' × AllRest n streams left

pub mix_streams_at :
    (n : ℕ) (streams : List MixerStream) (acc : List ℤ) (i : ℕ) (x : ℤ)
    → AllWhole streams
    → i < length acc
    → get_or acc i (pos 0) ≡ wrap32 x
    → get_or (mix_streams n streams acc).0 i (pos 0) ≡ wrap32 (x +ℤ total_at n streams i)
unfolding mix_streams
mix_streams_at n [] acc i x v h f = f ∙ ap wrap32 (sym (+ℤ_zero x))
mix_streams_at n (s ∷ streams) acc i x v h f =
    let want = min (n * 4) (s.ring.filled / 4 * 4) in
    elim (Bool-cases (want == 0)) [
      | inl z ↦
          let e : sample_at (queued n s) i ≡ pos 0 =
            ap (λ bytes. sample_at bytes i) (pass_whole n s v.0 ((==_iff want 0).0 z)).0 in
          rw (z, mix_streams)
            (mix_streams_at n streams acc i x v.1 h f
              ∙ ap (λ (a : ℤ). wrap32 (x +ℤ a))
                  (sym (zero_+ℤ (total_at n streams i))
                    ∙ ap (λ a. a +ℤ total_at n streams i) (sym e)))
      | inr z ↦
          let got = (try_pop s.ring want).0 in
          rw (z, mix_streams)
            (mix_streams_at n streams (add_samples acc got) i (x +ℤ sample_at (queued n s) i) v.1
                (omega (arith, length-add_samples acc got))
                (add_samples_at acc got i x h f
                  ∙ ap (λ bytes. wrap32 (x +ℤ sample_at bytes i)) (pop_whole n s v.0).0)
              ∙ ap wrap32 (+ℤ_assoc x (sample_at (queued n s) i) (total_at n streams i)))
    ]

pub mix_streams_left :
    (n : ℕ) (streams : List MixerStream) (acc : List ℤ)
    → AllWhole streams
    → AllRest n streams (mix_streams n streams acc).2
unfolding mix_streams
mix_streams_left n [] acc v = tt
mix_streams_left n (s ∷ streams) acc v =
    let want = min (n * 4) (s.ring.filled / 4 * 4) in
    elim (Bool-cases (want == 0)) [
      | inl z ↦
          rw (z, mix_streams)
            ((pass_whole n s v.0 ((==_iff want 0).0 z)).1, mix_streams_left n streams acc v.1)
      | inr z ↦
          rw (z, mix_streams)
            (
              (pop_whole n s v.0).1,
              mix_streams_left n streams (add_samples acc (try_pop s.ring want).0) v.1,
            )
    ]

-- Some client has data if not all rings are empty.
pub mix_streams_data :
    (n : ℕ) (streams : List MixerStream) (acc : List ℤ)
    → AllWhole streams
    → 0 < n
    → all_dry streams ≡ false
    → (mix_streams n streams acc).1 ≡ true
unfolding mix_streams
mix_streams_data n [] acc v p d = cc
mix_streams_data n (s ∷ streams) acc v p d =
    let want = min (n * 4) (s.ring.filled / 4 * 4) in
    elim (Bool-cases (want == 0)) [
      | inl z ↦
          let e : (s.ring.filled == 0) ≡ true = ground (arith, v.0.frames) in
          rw (z, mix_streams) (mix_streams_data n streams acc v.1 p (rw e at d))
      | inr z ↦ rw (z, mix_streams) refl
    ]
