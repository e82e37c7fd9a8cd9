-- ===== src/Server/World.antt =====
-- The threads of the server together: the readers of the clients, the mixer and the control
-- connections, in any order of their steps, each tick of the mixer being one. What a reader still has
-- to do is the rest of its trace. `sent` is kept for the proofs: all bytes that a reader has put into
-- its ring.
pub mod Reached
pub mod Sound
pub mod Kept
pub mod Limit
pub mod Heard
use audiod.Prelude.{
  ℕ, ◌+◌, ◌%◌, ◌^◌, ◌<◌, ◌≡◌, Bool, true, false, ◌&&◌, Option, none, some, List, [], ◌∷◌, ◌++◌,
  if◌then◌else◌,
}
use audiod.Prelude.Int.{ℤ}
use audiod.Prelude.Float.{Floats}
use audiod.Common.Audio.{AudioCfg}
use audiod.Common.Ring
use audiod.Common.Ring.{push}
use audiod.Server.State.{ServerState, Route, initial, state_gain}
use audiod.Server.Command.{Cmd, apply}
use audiod.Server.Reader.{Event, pushed, counted, flushed, finished, applied, reader_client}
use audiod.Server.Mixer.{
  MixerStream, Mixer, Env, Tick, register, request_flush, finish, is_dry, flush_one, tick,
}
use audiod.Server.Mixer.Report.{publish}

-- The parts of the configuration that the threads read.
pub record Config : Type 0 where
  pub max_clients : ℕ
  pub client_ring_bytes : ℕ
  pub mix_rate : ℕ
  pub is_linear : Bool

-- What the driver, the clock and the jack answer in a tick.
pub record Answers : Type 0 where
  pub now : ℕ
  pub stop_ok : Bool
  pub delay : ℤ
  pub route : Option Route
  pub delay_after : Option ℤ

module _ (fl : Floats) where
  open fl use {F32}

  pub record Client : Type 0 where
    pub stream : MixerStream
    pub todo : List (Event F32)
    pub sent : List ℕ

  -- `clients` are those that the mixer has; `joining` are still in its channel.
  pub record World : Type 0 where
    pub state : ServerState
    pub clients : List Client
    pub joining : List Client
    pub dry_since : Option ℕ
    pub stopped : Bool

  abbrev pub start : World
  start = record {
    state = initial fl;
    clients = [];
    joining = [];
    dry_since = none;
    stopped = false;
  }

  abbrev pub streams_of : List Client → List MixerStream
  streams_of [] = []
  streams_of (c ∷ clients) = c.stream ∷ streams_of clients

  abbrev pub mixer_of : World → Mixer
  mixer_of w = record {
    streams = streams_of w.clients;
    dry_since = w.dry_since;
    stopped = w.stopped;
    live = w.state.live_clients;
  }

  -- One event of a reader; `none` waits for room in the ring.
  unfoldable pub act : Event F32 → Client → ServerState → Option (Client × ServerState)
  unfolding request_flush finish push
  act (pushed bytes) c s = elim (push c.stream.ring bytes) [
    | none ↦ none
    | some ring ↦
        some (record c { stream = record c.stream { ring = ring }; sent = c.sent ++ bytes }, s)
  ]
  act (counted n) c s = some (c, record s { total_frames = (s.total_frames + n) % 2 ^ 64 })
  act flushed c s = some (record c { stream = request_flush c.stream }, s)
  act finished c s = some (record c { stream = finish c.stream }, s)
  act (applied cmd) c s = some (c, (apply fl s cmd).0)

  -- The clients that are still there behind the flushes, and what the mixer leaves of them.
  abbrev pub kept : List Client → List Client
  kept [] = []
  kept (c ∷ clients) =
      let s = flush_one c.stream in
      if s.done && is_dry s then kept clients else record c { stream = s } ∷ kept clients

  abbrev pub rejoin : List Client → List MixerStream → List Client
  rejoin [] left = []
  rejoin (c ∷ clients) [] = []
  rejoin (c ∷ clients) (s ∷ left) = record c { stream = s } ∷ rejoin clients left

  abbrev pub env_of : World → Answers → Env
  env_of w a = record {
    now = a.now;
    added = streams_of w.joining;
    stop_ok = a.stop_ok;
    delay = a.delay;
    muted = w.state.muted;
  }

  abbrev pub tick_of : World → Answers → Tick
  tick_of w a = tick fl (state_gain fl w.state) (env_of w a) (mixer_of w)

  -- A tick of the mixer.
  unfoldable pub on_tick : World → Answers → World
  unfolding publish
  on_tick w a =
      let t = tick_of w a in
      record {
        state = publish t a.route a.delay_after w.state;
        clients = rejoin (kept (w.clients ++ w.joining)) t.mixer.streams;
        joining = [];
        dry_since = t.mixer.dry_since;
        stopped = t.mixer.stopped;
      }

  -- A client whose connection has been let in, and what it goes on to send.
  unfoldable pub new_client : Config → ServerState → ℕ → AudioCfg → List ℕ → Client
  unfolding reader_client register
  new_client cf s rounds cfg stream = record {
    stream = register cf.client_ring_bytes;
    todo =
        reader_client fl true s.live_clients cf.max_clients cf.mix_rate cf.is_linear rounds cfg
          stream;
    sent = [];
  }

  pub data Step (cf : Config) (w : World) : World → Type 0 where
    -- a connection below the limit of clients, the check and the registration in one
    joins :
        (rounds : ℕ) (cfg : AudioCfg) (stream : List ℕ)
        → w.state.live_clients < cf.max_clients
        → Step cf w
            (record w { joining = w.joining ++ new_client cf w.state rounds cfg stream ∷ [] })
    -- an event of a reader whose client the mixer has, or does not have yet
    acts :
        (before after : List Client) (c c' : Client) (e : Event F32) (todo : List (Event F32))
        (s : ServerState)
        → w.clients ≡ before ++ c ∷ after
        → c.todo ≡ e ∷ todo
        → act e c w.state ≡ some (c', s)
        → Step cf w (record w { clients = before ++ record c' { todo = todo } ∷ after; state = s })
    acts_early :
        (before after : List Client) (c c' : Client) (e : Event F32) (todo : List (Event F32))
        (s : ServerState)
        → w.joining ≡ before ++ c ∷ after
        → c.todo ≡ e ∷ todo
        → act e c w.state ≡ some (c', s)
        → Step cf w (record w { joining = before ++ record c' { todo = todo } ∷ after; state = s })
    -- a command of a control connection
    commands : (cmd : Cmd F32) → Step cf w (record w { state = (apply fl w.state cmd).0 })
    ticks : (a : Answers) → Step cf w (on_tick w a)

  pub data Reach (cf : Config) : World → Type 0 where
    starts : Reach cf start
    later : {w w' : World} → Reach cf w → Step cf w w' → Reach cf w'
