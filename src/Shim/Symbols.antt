-- ===== src/Shim/Symbols.antt =====
-- shim/src/lib.rs: the overridden dlopen, dlsym and dlclose. A name is the list of its bytes; whether
-- it is UTF-8 is an argument, and so are the three calls of the C library that they pass on.
pub mod Exact
use audiod.Prelude.{
  ℕ, Bool, not, ◌&&◌, ◌||◌, Option, none, some, List, [], ◌∷◌, ◌++◌, if◌then◌else◌,
}
use audiod.Prelude.Int.{ℤ, pos}
use audiod.Prelude.Text.{Text, text, same_bytes, contains_text}

-- FAKE_HANDLE, or a handle that the C library has given.
pub data Handle : Type 0 where
  fake : Handle
  real : ℕ → Handle

-- What an address stands for: one of the shim's functions by its name, the storage behind
-- `snd_config`, or what the C library has found.
pub data Address : Type 0 where
  null : Address
  function : Text → Address
  config_storage : Address
  found : ℕ → Address

unfoldable pub dlopen : (Text → Bool) → (Option Text → ℕ) → Option Text → Handle
unfolding contains_text
dlopen is_utf8 real_dlopen none = real (real_dlopen none)
dlopen is_utf8 real_dlopen (some path) =
    if is_utf8 path && contains_text (text "libasound.so") path
    then fake
    else real (real_dlopen (some path))

unfoldable pub dlclose : (ℕ → ℤ) → Handle → ℤ
dlclose real_dlclose fake = pos 0
dlclose real_dlclose (real h) = real_dlclose h

abbrev pub version : Text
version = text "@ALSA_0.9"

-- One line of the table: the name itself, or the name with its version.
unfoldable pub is_sym : Text → Text → Bool
is_sym name func = same_bytes name func || same_bytes name (func ++ version)

unfoldable pub first_match : List Text → Text → Option Text
unfolding is_sym
first_match [] name = none
first_match (func ∷ table) name =
    let rest = first_match table name in if is_sym name func then some func else rest

-- The functions that `lookup` goes through.
abbrev pub symbols : List Text
symbols =
    text "snd_pcm_open"
    ∷ text "snd_pcm_close"
    ∷ text "snd_pcm_writei"
    ∷ text "snd_pcm_prepare"
    ∷ text "snd_pcm_drain"
    ∷ text "snd_pcm_drop"
    ∷ text "snd_pcm_start"
    ∷ text "snd_pcm_pause"
    ∷ text "snd_pcm_state"
    ∷ text "snd_pcm_avail_update"
    ∷ text "snd_pcm_avail"
    ∷ text "snd_pcm_rewind"
    ∷ text "snd_pcm_forward"
    ∷ text "snd_pcm_nonblock"
    ∷ text "snd_pcm_delay"
    ∷ text "snd_pcm_hw_params_malloc"
    ∷ text "snd_pcm_hw_params_free"
    ∷ text "snd_pcm_hw_params_any"
    ∷ text "snd_pcm_hw_params_set_access"
    ∷ text "snd_pcm_hw_params_set_format"
    ∷ text "snd_pcm_hw_params_set_channels"
    ∷ text "snd_pcm_hw_params_set_rate_near"
    ∷ text "snd_pcm_hw_params_set_buffer_size_near"
    ∷ text "snd_pcm_hw_params_set_period_size_near"
    ∷ text "snd_pcm_hw_params_set_periods_near"
    ∷ text "snd_pcm_hw_params_get_buffer_size"
    ∷ text "snd_pcm_hw_params_get_period_size"
    ∷ text "snd_pcm_hw_params_get_period_time"
    ∷ text "snd_pcm_hw_params"
    ∷ text "snd_pcm_hw_params_current"
    ∷ text "snd_pcm_sw_params_malloc"
    ∷ text "snd_pcm_sw_params_free"
    ∷ text "snd_pcm_sw_params_current"
    ∷ text "snd_pcm_sw_params_set_avail_min"
    ∷ text "snd_pcm_sw_params_set_start_threshold"
    ∷ text "snd_pcm_sw_params_set_stop_threshold"
    ∷ text "snd_pcm_sw_params_get_boundary"
    ∷ text "snd_pcm_sw_params"
    ∷ text "snd_strerror"
    ∷ text "snd_pcm_format_size"
    ∷ text "snd_pcm_format_physical_width"
    ∷ text "snd_pcm_format_width"
    ∷ text "snd_pcm_format_little_endian"
    ∷ text "snd_pcm_format_signed"
    ∷ text "snd_pcm_recover"
    ∷ text "snd_pcm_set_params"
    ∷ text "snd_pcm_get_params"
    ∷ text "snd_pcm_frames_to_bytes"
    ∷ text "snd_pcm_open_lconf"
    ∷ text "snd_pcm_poll_descriptors"
    ∷ text "snd_pcm_poll_descriptors_count"
    ∷ text "snd_pcm_poll_descriptors_revents"
    ∷ text "snd_pcm_hw_params_get_channels_max"
    ∷ text "snd_pcm_hw_params_get_rate"
    ∷ text "snd_config_add"
    ∷ text "snd_config_copy"
    ∷ text "snd_config_delete"
    ∷ text "snd_config_get_id"
    ∷ text "snd_config_get_string"
    ∷ text "snd_config_imake_integer"
    ∷ text "snd_config_search"
    ∷ text "snd_config_search_definition"
    ∷ text "snd_lib_error_set_handler"
    ∷ text "snd_pcm_dump"
    ∷ text "snd_pcm_hw_params_dump"
    ∷ text "snd_pcm_hw_params_can_pause"
    ∷ text "snd_pcm_hw_params_copy"
    ∷ text "snd_pcm_hw_params_get_buffer_size_max"
    ∷ text "snd_pcm_hw_params_get_period_size_min"
    ∷ text "snd_pcm_hw_params_set_buffer_time_near"
    ∷ text "snd_pcm_hw_params_set_channels_near"
    ∷ text "snd_pcm_hw_params_set_rate_resample"
    ∷ text "snd_pcm_hw_params_sizeof"
    ∷ text "snd_pcm_hw_params_test_format"
    ∷ text "snd_pcm_sw_params_set_silence_size"
    ∷ text "snd_pcm_sw_params_sizeof"
    ∷ text "snd_pcm_status"
    ∷ text "snd_pcm_status_get_avail"
    ∷ text "snd_pcm_status_get_delay"
    ∷ text "snd_pcm_status_get_state"
    ∷ text "snd_pcm_status_sizeof"
    ∷ text "snd_pcm_state_name"
    ∷ text "snd_pcm_readi"
    ∷ text "snd_pcm_writen"
    ∷ text "snd_pcm_resume"
    ∷ text "snd_pcm_stream"
    ∷ text "snd_output_buffer_open"
    ∷ text "snd_output_buffer_string"
    ∷ text "snd_output_close"
    ∷ text "snd_output_flush"
    ∷ text "snd_pcm_get_chmap"
    ∷ text "snd_pcm_set_chmap"
    ∷ text "snd_pcm_free_chmaps"
    ∷ text "snd_pcm_query_chmaps"
    ∷ text "snd_pcm_chmap_print"
    ∷ text "snd_pcm_chmap_name"
    ∷ text "snd_pcm_chmap_long_name"
    ∷ text "snd_pcm_chmap_type_name"
    ∷ []

abbrev pub lookup : Text → Option Text
lookup name = first_match symbols name

unfoldable pub dlsym : (Text → Bool) → (ℕ → Text → Address) → Handle → Option Text → Address
dlsym is_utf8 real_dlsym fake none = null
dlsym is_utf8 real_dlsym (real h) none = null
dlsym is_utf8 real_dlsym (real h) (some name) = real_dlsym h name
dlsym is_utf8 real_dlsym fake (some name) =
    if not (is_utf8 name)
    then null
    else if same_bytes name (text "snd_config")
    then config_storage
    else elim (lookup name) [ none ↦ null | some func ↦ function func ]
