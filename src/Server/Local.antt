-- ===== src/Server/Local.antt =====
-- server/src/main.rs: the control socket of a process that plays by itself, and the LED that shows
-- the mute.
use audiod.Prelude.{Bool, Option, none, some, List, [], ◌∷◌, map, ◌==◌, if◌then◌else◌}
use audiod.Prelude.Bytes.{le_u32}
use audiod.Prelude.Text.{Text, text, contains_text}
use audiod.Server.Listen.{
  Answer, header, read_header, Accept, accepted, would_block, failed, shutdown,
}

-- One connection of `spawn_control_socket`: what it still has to read, if its header is that of a
-- control client; it is closed otherwise.
unfoldable pub take_control : List Answer → Option (List Answer)
unfolding read_header
take_control reads = elim (read_header [] reads) [
  | header hdr rest ↦ if le_u32 hdr 0 == 0 then some rest else none
  | _ ↦ none
]

-- Its accept loop, which does not look at SHUTDOWN: the connections that are handed to
-- `handle_control`, in order.
unfoldable pub control_accepts : List Accept → List (List Answer)
unfolding take_control
control_accepts [] = []
control_accepts (accepted reads finished ∷ turns) =
    let rest = control_accepts turns in
    elim (take_control reads) [ none ↦ rest | some left ↦ left ∷ rest ]
control_accepts (would_block ∷ turns) = control_accepts turns
control_accepts (failed ∷ turns) = control_accepts turns
control_accepts (shutdown ∷ turns) = control_accepts turns

-- `spawn_control_socket`, of whether the socket can be bound; without it the process plays on.
unfoldable pub spawn_control_socket : Bool → List Accept → List (List Answer)
unfolding control_accepts
spawn_control_socket bind_ok turns = if bind_ok then control_accepts turns else []

-- The names of the LEDs that are written, of those that the directory lists.
unfoldable pub mute_leds : List Text → List Text
unfolding contains_text
mute_leds [] = []
mute_leds (name ∷ names) =
    let rest = mute_leds names in if contains_text (text "::mute") name then name ∷ rest else rest

-- `set_mute_led`: the names with what is written to their brightness. There is no list where the
-- directory cannot be read.
unfoldable pub set_mute_led : Option (List Text) → Bool → List (Text × Text)
unfolding mute_leds
set_mute_led none mute = []
set_mute_led (some names) mute =
    map (λ (name : Text). (name, if mute then text "1" else text "0")) (mute_leds names)
