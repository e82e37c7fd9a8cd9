-- ===== src/Ctl/Args.antt =====
-- ctl/src/main.rs: the command line of the control client, and what it then sends and shows. Writing
-- to the server is taken to succeed, since the client panics where it does not.
use audiod.Prelude.Bytes.{le_u32, read_exact}
use audiod.Prelude.{
  ℕ, Bool, true, false, ◌||◌, Option, none, some, List, [], ◌∷◌, ◌++◌, if◌then◌else◌,
}
use audiod.Prelude.Text.{Text, text, same_bytes}
use audiod.Prelude.Float.{Floats}
use audiod.Common.Config.{socket_path_str}
use audiod.Ctl.{Request, mute, unmute, status, volume, control_header, message}

-- The variables of the loop over the arguments.
pub record Line : Type 0 where
  pub socket_path : Text
  pub cmd : Option Text
  pub vol_arg : Option Text

pub data Parsed : Type 0 where
  helped misused : Parsed
  line : Line → Parsed

-- An argument that is not `-s`, nor a request for help.
unfoldable pub on_word : Line → Text → Option Line
on_word l a = elim l.cmd [
  | none ↦ some (record l { cmd = some a })
  | some c ↦ elim l.vol_arg [ none ↦ some (record l { vol_arg = some a }) | some v ↦ none ]
]

-- The flag is set while `-s` waits for its value.
unfoldable pub parse_line : Bool → Line → List Text → Parsed
unfolding on_word
parse_line true l [] = line (record l { socket_path = socket_path_str })
parse_line true l (a ∷ args) = parse_line false (record l { socket_path = a }) args
parse_line false l [] = line l
parse_line false l (a ∷ args) = elim (same_bytes a (text "-s")) [
  | true ↦ parse_line true l args
  | false ↦ elim (same_bytes a (text "-h") || same_bytes a (text "--help")) [
    | true ↦ helped
    | false ↦ elim (on_word l a) [ none ↦ misused | some l' ↦ parse_line false l' args ]
  ]
]

-- How the process ends, with the bytes that it has sent; a reply is shown as its text.
pub data Run : Type 0 where
  succeeded : List ℕ → Run
  showed : List ℕ → Text → Run
  exit_1 : List ℕ → Run
  panicked : List ℕ → Run

-- The answer to a request for the status, of what the server sends before it closes.
unfoldable pub show_reply : List ℕ → List ℕ → Run
show_reply sent reply = elim (read_exact 4 reply) [
  | none ↦ exit_1 sent
  | some (len, rest) ↦ elim (read_exact (le_u32 len 0) rest) [
    | none ↦ panicked sent
    | some (body, rest') ↦ showed sent body
  ]
]

module _ (fl : Floats) where
  open fl use {F32, lit}

  -- `str::parse::<f32>` is an argument.
  unfoldable pub request_of : (Text → Option F32) → Text → Option Text → Option (Request F32)
  request_of parse_f32 cmd vol_arg =
      let pct : F32 = elim vol_arg [
        | none ↦ lit 100 0
        | some s ↦ elim (parse_f32 s) [ none ↦ lit 100 0 | some x ↦ x ]
      ] in
      if same_bytes cmd (text "mute")
      then some mute
      else if same_bytes cmd (text "unmute")
      then some unmute
      else if same_bytes cmd (text "volume")
      then some (volume pct)
      else if same_bytes cmd (text "status")
      then some status
      else none

  unfoldable pub after_request : Request F32 → List ℕ → Run
  unfolding message show_reply
  after_request mute reply = succeeded (control_header ++ message fl mute)
  after_request unmute reply = succeeded (control_header ++ message fl unmute)
  after_request (volume pct) reply = succeeded (control_header ++ message fl (volume pct))
  after_request status reply = show_reply (control_header ++ message fl status) reply

  -- `main`: where a connection can be made, and what comes back over it, are arguments.
  unfoldable pub main : (Text → Option F32) → (Text → Bool) → List ℕ → List Text → Run
  unfolding parse_line request_of after_request
  main parse_f32 connects reply args =
      elim (parse_line false (record { socket_path = socket_path_str; cmd = none; vol_arg = none })
        args) [
          | helped ↦ succeeded []
          | misused ↦ exit_1 []
          | line l ↦
              let cmd : Text = elim l.cmd [ none ↦ text "status" | some c ↦ c ] in
              if connects l.socket_path
              then elim (request_of parse_f32 cmd l.vol_arg) [
                | none ↦ exit_1 control_header
                | some r ↦ after_request r reply
              ]
              else exit_1 []
        ]
