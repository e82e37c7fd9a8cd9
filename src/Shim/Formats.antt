-- ===== src/Shim/Formats.antt =====
-- shim/src/lib.rs: the sizes of samples as the application asks for them.
use audiod.Prelude.{ℕ, ◌*◌, ◌/◌, ◌==◌, if◌then◌else◌}

-- `format_widths`: sample bits and physical bits.
unfoldable pub format_widths : ℕ → ℕ × ℕ
format_widths fmt =
    if fmt == 6
    then (24, 32)
    else if fmt == 10
    then (32, 32)
    else if fmt == 14
    then (32, 32)
    else if fmt == 16
    then (64, 64)
    else (16, 16)

-- `snd_pcm_format_size` of a count that is not negative.
unfoldable pub format_size : ℕ → ℕ → ℕ
unfolding format_widths
format_size fmt count = count * ((format_widths fmt).1 / 8)
