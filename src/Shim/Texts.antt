-- ===== src/Shim/Texts.antt =====
-- shim/src/lib.rs: the texts that the application may ask for, without the zero behind them.
use audiod.Prelude.{
  ℕ, zero, suc, ◌+◌, ◌/◌, ◌%◌, Option, none, some, [], ◌∷◌, ◌++◌, ◌==◌, if◌then◌else◌, take,
}
use audiod.Prelude.Int.{ℤ, pos, negsuc}
use audiod.Prelude.Text.{Text, text}

-- The decimal digits of a number with at most that many.
unfoldable pub digits : ℕ → ℕ → Text
digits zero n = []
digits (suc fuel) n =
    let rest = digits fuel (n / 10) in
    let last = (b'0' + n % 10) ∷ [] in if n / 10 == 0 then last else rest ++ last

-- A number of 32 bits has ten digits at most.
unfoldable pub decimal : ℤ → Text
unfolding digits
decimal (pos n) = digits 10 n
decimal (negsuc n) = b'-' ∷ digits 10 (n + 1)

-- The known errors, by their number without the sign.
unfoldable pub error_text : ℕ → Option Text
error_text n =
    if n == 0
    then some (text "Success")
    else if n == 1
    then some (text "Operation not permitted")
    else if n == 2
    then some (text "No such file or directory")
    else if n == 5
    then some (text "Input/output error")
    else if n == 6
    then some (text "No such device or address")
    else if n == 9
    then some (text "Bad file descriptor")
    else if n == 11
    then some (text "Resource temporarily unavailable")
    else if n == 12
    then some (text "Cannot allocate memory")
    else if n == 13
    then some (text "Permission denied")
    else if n == 16
    then some (text "Device or resource busy")
    else if n == 19
    then some (text "No such device")
    else if n == 22
    then some (text "Invalid argument")
    else if n == 32
    then some (text "Broken pipe")
    else if n == 77
    then some (text "Function not implemented")
    else if n == 95
    then some (text "Operation not supported")
    else if n == 112
    then some (text "Host is down")
    else none

abbrev pub magnitude : ℤ → ℕ
magnitude (pos n) = n
magnitude (negsuc n) = n + 1

-- `snd_strerror`; its own buffer takes 63 bytes.
unfoldable pub strerror : ℤ → Text
unfolding error_text decimal
strerror errnum = elim (error_text (magnitude errnum)) [
  | some s ↦ s
  | none ↦ take 63 (text "errno=" ++ decimal errnum)
]

unfoldable pub state_name : ℤ → Text
state_name (negsuc n) = text "UNKNOWN"
state_name (pos s) =
    if s == 0
    then text "SND_PCM_STATE_OPEN"
    else if s == 1
    then text "SETUP"
    else if s == 2
    then text "PREPARED"
    else if s == 3
    then text "RUNNING"
    else if s == 4
    then text "XRUN"
    else if s == 5
    then text "DRAINING"
    else if s == 6
    then text "PAUSED"
    else if s == 7
    then text "SUSPENDED"
    else if s == 8
    then text "DISCONNECTED"
    else text "UNKNOWN"

-- The names of channels and of channel maps, whichever is asked for.
abbrev pub chmap_name : Text
chmap_name = text "Unknown"
