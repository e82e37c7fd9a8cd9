-- ===== src/Server/Listen.antt =====
-- server/src/main.rs: who may connect, the header of a connection, and the loop of `run_server`
-- that hands each connection to a thread of its own.
pub mod Header
pub mod Access
use audiod.Prelude.{
  ℕ, ◌+◌, ◌-◌, Bool, true, false, not, ◌&&◌, ◌||◌, Option, none, some, List, [], ◌∷◌, ◌++◌, leb,
  ◌==◌, if◌then◌else◌, length, take, drop,
}
use audiod.Prelude.Bytes.{le_u32}
use audiod.Prelude.Float.{Floats}
use audiod.Common.Audio.{AudioCfg, hdr_sz}
use audiod.Server.State.{ServerState, Status}
use audiod.Server.Command.{control_loop, parse_header}
use audiod.Server.Reader.{Event, reader_client}

-- `trusted_uid`: SUDO_UID, if it is set and a number of 32 bits, or else the effective user.
unfoldable pub trusted_uid : Option ℕ → ℕ → ℕ
trusted_uid none euid = euid
trusted_uid (some uid) euid = uid

-- `peer_allowed`; a peer is `none` where SO_PEERCRED fails.
unfoldable pub peer_allowed : Option ℕ → ℕ → Bool
peer_allowed none trusted = false
peer_allowed (some uid) trusted = (uid == 0) || (uid == trusted)

-- What one `read` on the connection meets: bytes that have come (none of them at the end of the
-- stream), none yet (with whether the deadline has passed by then), or a failure.
pub data Answer : Type 0 where
  came : List ℕ → Answer
  not_yet : Bool → Answer
  broken : Answer

-- `header` has the bytes of the header and what is still to be read; `waits` is a read that has not
-- come back.
pub data HeaderRead : Type 0 where
  header : List ℕ → List Answer → HeaderRead
  eof timed_out io_error waits : HeaderRead

-- The loop of `read_header_tolerant` behind the bytes `got`. A read takes no more than there is room
-- for; if that leaves bytes behind, the header is full.
unfoldable pub read_header : List ℕ → List Answer → HeaderRead
read_header got [] = if leb hdr_sz (length got) then header got [] else waits
read_header got (came bytes ∷ reads) =
    let room = hdr_sz - length got in
    elim (leb hdr_sz (length got)) [
      | true ↦ header got (came bytes ∷ reads)
      | false ↦ elim bytes [
        | [] ↦ eof
        | b ∷ bs ↦ elim (drop room (b ∷ bs)) [
          | [] ↦ read_header (got ++ take room (b ∷ bs)) reads
          | c ∷ cs ↦ header (got ++ take room (b ∷ bs)) (came (c ∷ cs) ∷ reads)
        ]
      ]
    ]
read_header got (not_yet late ∷ reads) = elim (leb hdr_sz (length got)) [
  | true ↦ header got (not_yet late ∷ reads)
  | false ↦ elim late [ true ↦ timed_out | false ↦ read_header got reads ]
]
read_header got (broken ∷ reads) =
    if leb hdr_sz (length got) then header got (broken ∷ reads) else io_error

-- What becomes of a connection whose header has been read.
pub data Handler : Type 0 where
  control : Handler
  pcm : AudioCfg → Handler
  dropped : Handler

unfoldable pub dispatch : List ℕ → Handler
dispatch hdr =
    if le_u32 hdr 0 == 0
    then control
    else elim (parse_header hdr) [ none ↦ dropped | some cfg ↦ pcm cfg ]

-- One turn of the accept loop: what `accept` gives, and which reader threads have finished.
pub data Accept : Type 0 where
  accepted : List Answer → (ℕ → Bool) → Accept
  would_block failed shutdown : Accept

-- The reader threads that have been started so far are those below `spawned`; `handles` are kept to
-- be joined. `handlers` are the connections that have been handed over, the last one first.
pub record Listener : Type 0 where
  pub handles : List ℕ
  pub spawned : ℕ
  pub handlers : List Handler

abbrev pub unfinished : (ℕ → Bool) → List ℕ → List ℕ
unfinished finished [] = []
unfinished finished (t ∷ handles) =
    if finished t then unfinished finished handles else t ∷ unfinished finished handles

unfoldable pub hand_over : Listener → (ℕ → Bool) → Handler → Listener
hand_over l finished control = record l { handlers = control ∷ l.handlers }
hand_over l finished dropped = l
hand_over l finished (pcm cfg) = record l {
  handles = unfinished finished l.handles ++ l.spawned ∷ [];
  spawned = l.spawned + 1;
  handlers = pcm cfg ∷ l.handlers;
}

unfoldable pub on_accept : Listener → List Answer → (ℕ → Bool) → Listener
unfolding hand_over dispatch read_header
on_accept l reads finished = elim (read_header [] reads) [
  | header hdr rest ↦ hand_over l finished (dispatch hdr)
  | _ ↦ l
]

-- The loop, up to the turn in which SHUTDOWN is seen; the handles that are left are then joined.
unfoldable pub accept_loop : Listener → List Accept → Listener
unfolding on_accept
accept_loop l [] = l
accept_loop l (accepted reads finished ∷ turns) = accept_loop (on_accept l reads finished) turns
accept_loop l (would_block ∷ turns) = accept_loop l turns
accept_loop l (failed ∷ turns) = accept_loop l turns
accept_loop l (shutdown ∷ turns) = l

-- `run_server`; `none` is an error of the mixer or of the socket, before any connection.
unfoldable pub run_server : Bool → Bool → List Accept → Option Listener
unfolding accept_loop
run_server mixer_ok bind_ok turns =
    if mixer_ok && bind_ok
    then some (accept_loop (record { handles = []; spawned = 0; handlers = [] }) turns)
    else none

-- The settings and the counts that a handler reads when it starts.
pub record Settings : Type 0 where
  pub live_clients : ℕ
  pub max_clients : ℕ
  pub mix_rate : ℕ
  pub is_linear : Bool
  pub rounds : ℕ

module _ (fl : Floats) where
  open fl use {F32}

  -- What a connection does to the server: the shared state, the replies, and the trace of a reader.
  abbrev pub Effect : Type 0
  Effect = ServerState × List (Status F32) × List (Event F32)

  -- `handle_control`
  unfoldable pub handle_control : Bool → ServerState → List ℕ → Effect
  handle_control allowed s stream =
      let (s', replies) = control_loop fl (length stream) s stream in
      if not allowed then (s, [], []) else (s', replies, [])

  -- The thread of a connection, over what it sends behind the header.
  unfoldable pub handle : Settings → Bool → ServerState → List ℕ → Handler → Effect
  unfolding handle_control reader_client
  handle settings allowed s stream control = handle_control allowed s stream
  handle settings allowed s stream dropped = (s, [], [])
  handle settings allowed s stream (pcm cfg) = (
    s,
    [],
    reader_client fl allowed settings.live_clients settings.max_clients settings.mix_rate
        settings.is_linear settings.rounds cfg stream,
  )

  -- A connection whose header is `hdr` and which then sends `stream`.
  unfoldable pub serve : Settings → Option ℕ → ℕ → ServerState → List ℕ → List ℕ → Effect
  unfolding handle
  serve settings peer trusted s hdr stream =
      handle settings (peer_allowed peer trusted) s stream (dispatch hdr)
