-- ===== src/Server/Mixer/Report.antt =====
-- What a tick of the mixer puts into the shared state: the count of clients, the route of the output
-- about once a second, and the delay of the driver.
use audiod.Prelude.{
  ℕ, ◌-◌, Bool, true, false, Option, none, some, [], ◌∷◌, leb, ◌==◌, if◌then◌else◌,
}
use audiod.Prelude.Int.{ℤ, pos}
use audiod.Server.State.{ServerState, Route, store_output_path}
use audiod.Server.Mixer.{Tick}

-- In milliseconds.
abbrev pub refresh_ms : ℕ
refresh_ms = 1000

-- Whether the route is looked up again, and the timer behind it.
unfoldable pub refresh : ℕ → ℕ → Bool × ℕ
refresh now path_timer =
    if leb refresh_ms (now - path_timer) then (true, now) else (false, path_timer)

-- The stores of a tick, of the route that was looked up and of the delay behind the write; `none`
-- where there was no look-up, and where the driver gave no delay.
unfoldable pub publish : Tick → Option Route → Option ℤ → ServerState → ServerState
unfolding store_output_path
publish t route delay s =
    let halted = if t.halts == 0 then s else record s { last_delay_frames = pos 0 } in
    let counted = record halted { live_clients = t.mixer.live } in
    let routed : ServerState = elim route [
      | none ↦ counted
      | some r ↦ store_output_path counted r
    ] in
    elim t.written [
      | [] ↦ routed
      | b ∷ bytes ↦ elim delay [ none ↦ routed | some d ↦ record routed { last_delay_frames = d } ]
    ]
