-- ===== src/Server/Args.antt =====
-- server/src/main.rs: the command line, and `parse_slot` of server/src/backend.rs. An argument is the
-- list of its bytes.
use audiod.Prelude.{
  ℕ, ◌+◌, ◌-◌, ◌*◌, ◌^◌, Bool, true, false, not, ◌&&◌, ◌||◌, Option, none, some, List, [], ◌∷◌,
  ◌++◌, ltb, leb, ◌==◌, if◌then◌else◌,
}
use audiod.Hda.Dbg.{corb, pio, DebugOpts, default_opts}
use audiod.Prelude.Text.{Text, text, strip_prefix, same_bytes}

abbrev pub hda_default_slot : Text
hda_default_slot = text "0000:00:1b.0"

-- `parse_slot`; `none` is an error.
unfoldable pub parse_slot : Text → Option Text
unfolding strip_prefix
parse_slot dev = elim (strip_prefix (text "hda:") dev) [
  | some slot ↦ some slot
  | none ↦ if same_bytes dev (text "hda") then some hda_default_slot else none
]

-- The digits of `str::parse::<u32>` behind the value read so far; `none` is an error.
unfoldable pub parse_digits : ℕ → Text → Option ℕ
parse_digits acc [] = some acc
parse_digits acc (c ∷ s) =
    let value = acc * 10 + (c - b'0') in
    let rest = parse_digits value s in
    if not (leb b'0' c && leb c b'9') then none else if ltb value (2 ^ 32) then rest else none

-- A leading plus sign is taken, and there must be a digit.
unfoldable pub parse_u32 : Text → Option ℕ
unfolding parse_digits
parse_u32 [] = none
parse_u32 (c ∷ []) = if c == b'+' then none else parse_digits 0 (c ∷ [])
parse_u32 (c ∷ d ∷ s) = if c == b'+' then parse_digits 0 (d ∷ s) else parse_digits 0 (c ∷ d ∷ s)

-- The variables of the loop over the arguments.
pub record Args : Type 0 where
  pub dev_name : Text
  pub list_only : Bool
  pub dbg : DebugOpts
  pub positional : List Text

-- One argument that takes no value behind it; `none` ends the process with an error.
unfoldable pub on_arg : Args → Text → Option Args
unfolding strip_prefix
on_arg a arg =
    if same_bytes arg (text "-l")
    then some (record a { list_only = true })
    else if same_bytes arg (text "--skip-reset")
    then some (record a { dbg = record a.dbg { skip_reset = true } })
    else if same_bytes arg (text "--skip-codec-init")
    then some (record a { dbg = record a.dbg { skip_codec_init = true } })
    else if same_bytes arg (text "--dump-state")
    then some (record a { dbg = record a.dbg { dump_state = true } })
    else if same_bytes arg (text "--dump-ring")
    then some (record a { dbg = record a.dbg { dump_ring = true } })
    else if same_bytes arg (text "--dump-topology")
    then some (record a { dbg = record a.dbg { dump_topology = true } })
    else elim (strip_prefix (text "--cmd-engine=") arg) [
      | none ↦ some (record a { positional = a.positional ++ arg ∷ [] })
      | some engine ↦
          if same_bytes engine (text "corb")
          then some (record a { dbg = record a.dbg { cmd_engine = some corb } })
          else if same_bytes engine (text "pio")
          then some (record a { dbg = record a.dbg { cmd_engine = some pio } })
          else none
    ]

-- The loop; the flag is set while `-d` waits for its value.
unfoldable pub parse_args : Bool → List Text → Args → Option Args
unfolding on_arg
parse_args true [] a = some (record a { dev_name = text "hda" })
parse_args true (arg ∷ rest) a = parse_args false rest (record a { dev_name = arg })
parse_args false [] a = some a
parse_args false (arg ∷ rest) a = elim (same_bytes arg (text "-d")) [
  | true ↦ parse_args true rest a
  | false ↦ elim (on_arg a arg) [ none ↦ none | some a' ↦ parse_args false rest a' ]
]

unfoldable pub parse_command_line : List Text → Option Args
unfolding parse_args
parse_command_line args =
    parse_args false args
      (record { dev_name = text "hda"; list_only = false; dbg = default_opts; positional = [] })

-- What the process goes on to do.
pub data Mode : Type 0 where
  lists serves usage selftests : Mode
  plays_stdin : ℕ → ℕ → Mode
  plays_file : Text → Mode
  exits : ℕ → Mode

abbrev pub or_default : Option ℕ → ℕ → ℕ
or_default none d = d
or_default (some v) d = v

-- `--rate=` and `--channels=` behind `--stdin`; the last ones count.
unfoldable pub stdin_options : List Text → ℕ → ℕ → Mode
unfolding strip_prefix parse_u32
stdin_options [] rate channels = plays_stdin rate channels
stdin_options (arg ∷ rest) rate channels = elim (strip_prefix (text "--rate=") arg) [
  | some v ↦ stdin_options rest (or_default (parse_u32 v) 44100) channels
  | none ↦ elim (strip_prefix (text "--channels=") arg) [
    | some v ↦ stdin_options rest rate (or_default (parse_u32 v) 2)
    | none ↦ stdin_options rest rate channels
  ]
]

unfoldable pub mode_of : List Text → Mode
unfolding stdin_options
mode_of [] = serves
mode_of (arg ∷ rest) =
    if same_bytes arg (text "--help") || same_bytes arg (text "-h")
    then usage
    else if same_bytes arg (text "--stdin") || same_bytes arg (text "-")
    then stdin_options rest 44100 2
    else if same_bytes arg (text "--selftest")
    then selftests
    else plays_file arg

-- `main` behind its logging: the arguments without the program's name, and the effective user.
unfoldable pub main : List Text → ℕ → Mode
unfolding parse_command_line parse_slot mode_of
main args euid = elim (parse_command_line args) [
  | none ↦ exits 2
  | some a ↦ elim (parse_slot a.dev_name) [
    | none ↦ exits 1
    | some slot ↦
        if a.list_only then lists else if not (euid == 0) then exits 1 else mode_of a.positional
  ]
]
