-- ===== src/Shim/Fixed.antt =====
-- shim/src/lib.rs: the calls whose answer depends on nothing but the pointers that they are given.
-- `none` stands for the null pointer in an argument; a call that writes to its argument gives what
-- stands there afterwards, and its return value.
use audiod.Prelude.{ℕ, ◌-◌, ◌^◌, Bool, true, false, Option, none, some, List, [], ◌∷◌}
use audiod.Prelude.Int.{ℤ, pos, negsuc}
use audiod.Shim.Calls.{einval}
use audiod.Shim.Params.{buffer_size, period_size, period_time}

-- -ENOENT, -ENOMEM, -ENOTSUP
abbrev pub enoent : ℤ
enoent = negsuc 1

abbrev pub enomem : ℤ
enomem = negsuc 11

abbrev pub enotsup : ℤ
enotsup = negsuc 94

abbrev pub sw_params_size : ℕ
sw_params_size = 136

-- A value that is stored wherever the pointer is not null.
unfoldable pub stores : {A : Type 0} → A → Option A → Option A × ℤ
stores value none = (none, pos 0)
stores value (some old) = (some value, pos 0)

-- `snd_pcm_hw_params_malloc` and `snd_pcm_sw_params_malloc`: of the size of a blob, whether there is
-- memory, and the pointer's target, which becomes a block of that size or null.
unfoldable pub params_malloc : ℕ → Bool → Option (Option ℕ) → Option (Option ℕ) × ℤ
params_malloc size has_memory none = (none, einval)
params_malloc size true (some old) = (some (some size), pos 0)
params_malloc size false (some old) = (some none, enomem)

-- Calls that do nothing and succeed.
pub data Ignored : Type 0 where
  rewind forward nonblock recover : Ignored

unfoldable pub ignored : Ignored → ℤ
ignored rewind = pos 0
ignored forward = pos 0
ignored nonblock = pos 0
ignored recover = pos 0

pub data SetNear : Type 0 where
  buffer_size_near buffer_time_near period_size_near periods_near : SetNear

unfoldable pub set_near : SetNear → ℤ
set_near buffer_size_near = pos 0
set_near buffer_time_near = pos 0
set_near period_size_near = pos 0
set_near periods_near = pos 0

unfoldable pub get_buffer_size : Option ℕ → Option ℕ × ℤ
unfolding stores
get_buffer_size val = stores buffer_size val

unfoldable pub get_period_size : Option ℕ → Option ℕ × ℤ
unfolding stores
get_period_size val = stores period_size val

unfoldable pub get_period_time : Option ℕ → Option ℕ × ℤ
unfolding stores
get_period_time val = stores period_time val

-- `snd_pcm_get_params`
unfoldable pub get_params : Option ℕ → Option ℕ → Option ℕ × Option ℕ × ℤ
unfolding stores
get_params buffer period = ((stores buffer_size buffer).0, (stores period_size period).0, pos 0)

-- The software parameters: setting them, and the boundary, which is the largest isize.
pub data SwParams : Type 0 where
  current avail_min start_threshold stop_threshold install : SwParams

unfoldable pub sw_params : SwParams → ℤ
sw_params current = pos 0
sw_params avail_min = pos 0
sw_params start_threshold = pos 0
sw_params stop_threshold = pos 0
sw_params install = pos 0

unfoldable pub get_boundary : Option ℕ → Option ℕ × ℤ
unfolding stores
get_boundary v = stores (2 ^ 63 - 1) v

-- At most two channels.
unfoldable pub get_channels_max : Option ℕ → Option ℕ × ℤ
get_channels_max none = (none, einval)
get_channels_max (some old) = (some 2, pos 0)

-- The calls on a tree of configuration, of which there is none.
pub data ConfigCall : Type 0 where
  add delete get_id get_string imake_integer search search_definition error_handler : ConfigCall

unfoldable pub config_call : ConfigCall → ℤ
config_call add = enoent
config_call delete = pos 0
config_call get_id = enoent
config_call get_string = enoent
config_call imake_integer = enoent
config_call search = enoent
config_call search_definition = enoent
config_call error_handler = pos 0

-- `snd_config_copy`, over the pointer's target: it becomes null.
unfoldable pub config_copy : Option (Option ℕ) → Option (Option ℕ) × ℤ
config_copy none = (none, einval)
config_copy (some old) = (some none, pos 0)

unfoldable pub get_buffer_size_max : Option ℕ → Option ℕ × ℤ
unfolding stores
get_buffer_size_max v = stores 16384 v

unfoldable pub get_period_size_min : Option ℕ → Option ℕ × ℤ
unfolding stores
get_period_size_min v = stores 256 v

-- Reading, and writing of planes, are refused; resuming is not.
pub data Transfer : Type 0 where
  readi writen resume : Transfer

unfoldable pub transfer : Transfer → ℤ
transfer readi = enotsup
transfer writen = enotsup
transfer resume = pos 0

-- A channel map of two channels, front left and front right, if there is memory for it.
pub record SndPcmChmap : Type 0 where
  pub channels : ℕ
  pub positions : List ℕ

abbrev pub snd_chmap_fl : ℕ
snd_chmap_fl = 3

abbrev pub snd_chmap_fr : ℕ
snd_chmap_fr = 4

unfoldable pub get_chmap : Bool → Option SndPcmChmap
get_chmap false = none
get_chmap true = some (record { channels = 2; positions = snd_chmap_fl ∷ snd_chmap_fr ∷ [] })

-- Setting, printing and parsing of channel maps are refused.
pub data ChmapCall : Type 0 where
  set_chmap chmap_print chmap_from_string chmap_parse_string : ChmapCall

unfoldable pub chmap_call : ChmapCall → ℤ
chmap_call set_chmap = enotsup
chmap_call chmap_print = enotsup
chmap_call chmap_from_string = enotsup
chmap_call chmap_parse_string = enotsup
