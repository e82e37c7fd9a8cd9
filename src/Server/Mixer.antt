-- ===== src/Server/Mixer.antt =====
-- server/src/mixer.rs: the mixer thread. A tick is one turn of its loop; what the driver answers in
-- the meantime is an argument of it. Times are in milliseconds.
pub mod Output
pub mod Pace
pub mod Report
pub mod Sum
use audiod.Prelude.{
  ℕ, zero, suc, ◌+◌, ◌-◌, ◌*◌, ◌/◌, ◌%◌, ◌^◌, ◌≤◌, ◌<◌, min, max, ◌≡◌, refl, sym, ap, ap₂, ◌∙◌, ◌≢◌,
  ◌↔◌, ◌⊎◌, inl, inr, Bool, true, false, not, ◌&&◌, ◌||◌, Option, none, some, List, [], ◌∷◌, ◌++◌,
  map, arith, ltb, leb, ◌==◌, if◌then◌else◌, ltb→lt, lt→ltb, ==_iff, Bool-cases, Option-cases,
  length, get_or, take, drop, replicate, slice, blit, tabulate, length-append, length-replicate,
  length-take, length-drop, take-append-drop, length-blit, length-tabulate, get_or-blit_in,
  get_or-blit_out, tabulate_ext, tabulate_self, tabulate-add, tabulate-slice, get_or-take,
  get_or-drop, concat, take-nil, drop-nil, take-tabulate, drop-tabulate, bit_and, bit_or, ◌>>=◌,
}
use audiod.Prelude.Bytes.{u16_le, le_u16}
use audiod.Prelude.Int.{ℤ, pos, negsuc, ◌+ℤ◌, wrap32, ◌-ℤ◌, clamp_ℤ, i16_of, i16_bits}
use audiod.Prelude.Float.{Floats}
use audiod.Common.Audio.{shim_server_frames}
use audiod.Common.Ring
use audiod.Common.Ring.{Ring}

abbrev pub chunk_frames : ℕ
chunk_frames = 1024

abbrev pub idle_ms : ℕ
idle_ms = 250

pub record MixerStream : Type 0 where
  pub ring : Ring
  pub flush : Bool
  pub done : Bool

-- The variables of `mix_loop`, and the clients counted in `STATE`.
pub record Mixer : Type 0 where
  pub streams : List MixerStream
  pub dry_since : Option ℕ
  pub stopped : Bool
  pub live : ℕ

unfoldable pub request_flush : MixerStream → MixerStream
request_flush s = record s { flush = true }

unfoldable pub finish : MixerStream → MixerStream
finish s = record s { done = true }

-- `register`: a stream with a ring of its own, which the next tick adds.
unfoldable pub register : ℕ → MixerStream
register ring_bytes = record { ring = Ring.new ring_bytes; flush = false; done = false }

abbrev pub is_dry : MixerStream → Bool
is_dry s = s.ring.filled == 0

abbrev pub all_dry : List MixerStream → Bool
all_dry [] = true
all_dry (s ∷ streams) = is_dry s && all_dry streams

abbrev pub any_flush : List MixerStream → Bool
any_flush [] = false
any_flush (s ∷ streams) = s.flush || any_flush streams

-- A requested flush empties the ring.
abbrev pub flush_one : MixerStream → MixerStream
flush_one s = if s.flush then record s { ring = Ring.clear s.ring; flush = false } else s

-- A client that is gone stays until its ring has run empty.
unfoldable pub retain : List MixerStream → List MixerStream
retain [] = []
retain (s ∷ streams) = if s.done && is_dry s then retain streams else s ∷ retain streams

-- What the driver and the clock answer in a tick.
pub record Env : Type 0 where
  pub now : ℕ
  pub added : List MixerStream
  pub stop_ok : Bool
  pub delay : ℤ
  pub muted : Bool

-- What the tick does: how often it stops the stream with success, and what it writes.
pub record Tick : Type 0 where
  pub mixer : Mixer
  pub halts : ℕ
  pub written : List ℕ

-- `try_idle_stop`; the clock is read once.
unfoldable pub try_idle_stop : Env → Mixer → ℕ → Tick
try_idle_stop env m halts =
    let since : ℕ = elim m.dry_since [ none ↦ env.now | some t ↦ t ] in
    if m.stopped
    then record { mixer = m; halts = halts; written = [] }
    else if ltb (env.now - since) idle_ms
    then record { mixer = record m { dry_since = some since }; halts = halts; written = [] }
    else if env.stop_ok
    then record {
      mixer = record m { dry_since = none; stopped = true };
      halts = halts + 1;
      written = [];
    }
    else record { mixer = record m { dry_since = some env.now }; halts = halts; written = [] }

-- The top of the loop: new streams, flushes, and the streams that are gone.
unfoldable pub prelude : Env → Mixer → Mixer × ℕ
unfolding retain
prelude env m =
    let joined = m.streams ++ env.added in
    let flushed = any_flush joined in
    let streams = map flush_one joined in
    let halt = flushed && (all_dry streams && (not m.stopped && env.stop_ok)) in
    let kept = retain streams in
    (
      record m {
        streams = kept;
        dry_since = if flushed then none else m.dry_since;
        stopped = m.stopped || halt;
        live = length kept;
      },
      if halt then 1 else 0,
    )

-- How many frames may be written before the driver holds what it is to hold.
unfoldable pub writable : ℤ → ℕ
writable delay = clamp_ℤ 0 chunk_frames (pos shim_server_frames -ℤ delay)

-- The samples of one stream added to what is there, in 32 bits that wrap around, as they do in a
-- release build.
unfoldable pub add_samples : List ℤ → List ℕ → List ℤ
add_samples (v ∷ acc) (lo ∷ hi ∷ bytes) =
    wrap32 (v +ℤ i16_of (lo + 256 * hi)) ∷ add_samples acc bytes
add_samples acc bytes = acc

-- The streams one by one: the sums, whether any had data, and what is left of the streams.
unfoldable pub mix_streams : ℕ → List MixerStream → List ℤ → List ℤ × Bool × List MixerStream
unfolding add_samples
mix_streams n [] acc = (acc, false, [])
mix_streams n (s ∷ streams) acc =
    let want = min (n * 4) (s.ring.filled / 4 * 4) in
    let (got, ring) = Ring.try_pop s.ring want in
    let skipped = mix_streams n streams acc in
    let mixed = mix_streams n streams (add_samples acc got) in
    if want == 0
    then (skipped.0, skipped.1, s ∷ skipped.2)
    else (mixed.0, true, record s { ring = ring } ∷ mixed.2)

module _ (fl : Floats) where
  open fl use {F32, lit, mul, of_int, to_i16, clamp, neg}

  unfoldable pub out_sample : F32 → Bool → ℤ → ℕ
  out_sample gain muted v =
      let s = if muted then lit 0 0 else mul (of_int v) gain in
      i16_bits (to_i16 (clamp (neg (lit 32768 0)) (lit 32767 0) s))

  unfoldable pub out_bytes : F32 → Bool → List ℤ → List ℕ
  unfolding out_sample
  out_bytes gain muted [] = []
  out_bytes gain muted (v ∷ acc) = u16_le (out_sample gain muted v) ++ out_bytes gain muted acc

  -- The part of the tick that runs when some stream has data.
  unfoldable pub feed : F32 → Env → Mixer → ℕ → Tick
  unfolding writable mix_streams out_bytes
  feed gain env m halts =
      let n = writable env.delay in
      let busy = record m { dry_since = none } in
      let (acc, had_data, left) = mix_streams n m.streams (replicate (n * 2) (pos 0)) in
      if n == 0
      then record { mixer = busy; halts = halts; written = [] }
      else if not had_data
      then record { mixer = record busy { streams = left }; halts = halts; written = [] }
      else record {
        mixer = record busy { streams = left; stopped = false };
        halts = halts;
        written = out_bytes gain env.muted acc;
      }

  unfoldable pub tick : F32 → Env → Mixer → Tick
  unfolding prelude try_idle_stop feed
  tick gain env m =
      let (m', halts) = prelude env m in
      if all_dry m'.streams then try_idle_stop env m' halts else feed gain env m' halts

  unfoldable pub mix_loop : F32 → List Env → Mixer → List Tick
  unfolding tick
  mix_loop gain [] m = []
  mix_loop gain (env ∷ envs) m = let t = tick gain env m in t ∷ mix_loop gain envs t.mixer
