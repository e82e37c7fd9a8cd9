-- ===== src/Server/State.antt =====
-- server/src/main.rs: `ServerState`, which the control handlers, the readers and the mixer share
-- through atomics, and the functions over it. Each call of these is one atomic access of one field.
use audiod.Prelude.{ℕ, Bool, false}
use audiod.Prelude.Int.{ℤ, negsuc}
use audiod.Prelude.Float.{Floats}

-- `OUT_SPEAKERS`, `OUT_HEADPHONE`, `OUT_UNKNOWN`.
pub data Route : Type 0 where
  speakers headphone unknown : Route

pub record ServerState : Type 0 where
  pub muted : Bool
  pub live_clients : ℕ
  pub total_frames : ℕ
  pub last_delay_frames : ℤ
  -- the bits of an `f32`, in percent
  pub volume : ℕ
  pub output_path : Route

-- What a STATUS reply says. The source puts these into a JSON text.
pub record Status (F : Type 0) : Type 0 where
  pub muted : Bool
  pub volume : F
  pub active : Bool
  pub clients : ℕ
  pub total_frames : ℕ
  pub delay_frames : ℤ
  pub output : Route

module _ (fl : Floats) where
  open fl use {F32, from_bits, to_bits, lit, clamp, div}

  unfoldable pub initial : ServerState
  initial = record {
    muted = false;
    live_clients = 0;
    total_frames = 0;
    last_delay_frames = negsuc 0;
    volume = to_bits (lit 100 0);
    output_path = unknown;
  }

  unfoldable pub state_volume : ServerState → F32
  state_volume s = from_bits s.volume

  unfoldable pub set_state_volume : ServerState → F32 → ServerState
  set_state_volume s percent = record s { volume = to_bits (clamp (lit 0 0) (lit 100 0) percent) }

  unfoldable pub state_gain : ServerState → F32
  unfolding state_volume
  state_gain s = div (state_volume s) (lit 100 0)

-- The route is known by its name; any other text is `unknown`.
unfoldable pub store_output_path : ServerState → Route → ServerState
store_output_path s route = record s { output_path = route }
