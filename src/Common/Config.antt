-- ===== src/Common/Config.antt =====
-- common/src/config.rs: the configuration, with what is taken for a value that its file leaves out.
-- Reading the file and parsing its text are arguments.
use audiod.Prelude.{ℕ, Option, none, some, [], ◌∷◌, ◌==◌, if◌then◌else◌}
use audiod.Prelude.Text.{Text, text}
use audiod.Prelude.Float.{Floats}

pub record ServerConfig (F : Type 0) : Type 0 where
  pub socket_path : Text
  pub volume : F
  pub mix_rate : ℕ
  pub max_clients : ℕ
  pub client_ring_bytes : ℕ
  pub resampler : Text

pub record ShimConfig : Type 0 where
  pub ring_buffer_size : ℕ

pub record Config (F : Type 0) : Type 0 where
  pub server : ServerConfig F
  pub shim : ShimConfig

-- What a file names: a section, and in it a value, may be missing.
pub record GivenServer (F : Type 0) : Type 0 where
  pub socket_path : Option Text
  pub volume : Option F
  pub mix_rate : Option ℕ
  pub max_clients : Option ℕ
  pub client_ring_bytes : Option ℕ
  pub resampler : Option Text

pub record Given (F : Type 0) : Type 0 where
  pub server : Option (GivenServer F)
  pub ring_buffer_size : Option ℕ

abbrev pub socket_path_str : Text
socket_path_str = text "/tmp/audiod.sock"

abbrev pub default_ring_buffer_size : ℕ
default_ring_buffer_size = 1048576

abbrev pub default_mix_rate : ℕ
default_mix_rate = 48000

abbrev pub default_max_clients : ℕ
default_max_clients = 8

abbrev pub default_client_ring_bytes : ℕ
default_client_ring_bytes = 65536

abbrev pub default_resampler : Text
default_resampler = text "sinc"

abbrev pub given_or {ℓ} : {A : Type ℓ} → Option A → A → A
given_or none d = d
given_or (some a) d = a

-- The file that is read: AUDIOD_CONFIG, or one below HOME, or else below /tmp. `join` puts a slash
-- between the two paths unless there is one, or nothing, before it.
abbrev pub join : Text → Text → Text
join [] path = path
join (c ∷ []) path = if c == b'/' then c ∷ path else c ∷ b'/' ∷ path
join (c ∷ d ∷ base) path = c ∷ join (d ∷ base) path

unfoldable pub config_path : Option Text → Option Text → Text
config_path (some path) home = path
config_path none home = join (given_or home (text "/tmp")) (text ".config/audiod/config.toml")

module _ (fl : Floats) where
  open fl use {F64, lit64}

  unfoldable pub default_server : ServerConfig F64
  default_server = record {
    socket_path = socket_path_str;
    volume = lit64 1 0;
    mix_rate = default_mix_rate;
    max_clients = default_max_clients;
    client_ring_bytes = default_client_ring_bytes;
    resampler = default_resampler;
  }

  unfoldable pub default_config : Config F64
  unfolding default_server
  default_config = record {
    server = default_server;
    shim = record { ring_buffer_size = default_ring_buffer_size };
  }

  -- The defaults of the single fields.
  unfoldable pub fill_in : Given F64 → Config F64
  unfolding default_server
  fill_in given = record {
    server = elim given.server [
      | none ↦ default_server
      | some s ↦ record {
        socket_path = given_or s.socket_path socket_path_str;
        volume = given_or s.volume (lit64 1 0);
        mix_rate = given_or s.mix_rate default_mix_rate;
        max_clients = given_or s.max_clients default_max_clients;
        client_ring_bytes = given_or s.client_ring_bytes default_client_ring_bytes;
        resampler = given_or s.resampler default_resampler;
      }
    ];
    shim = record { ring_buffer_size = given_or given.ring_buffer_size default_ring_buffer_size };
  }

  -- `load_config`; a file that cannot be read or parsed counts as one that is not there.
  unfoldable pub load_config :
      (Text → Option Text) → (Text → Option (Given F64)) → Option Text → Option Text → Config F64
  unfolding config_path default_config fill_in
  load_config read_to_string from_str audiod_config home =
      elim (read_to_string (config_path audiod_config home)) [
        | none ↦ default_config
        | some s ↦ elim (from_str s) [ none ↦ default_config | some given ↦ fill_in given ]
      ]
