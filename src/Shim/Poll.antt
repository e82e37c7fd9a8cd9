-- ===== src/Shim/Poll.antt =====
-- shim/src/lib.rs: the descriptor that clients wait on, a one-shot timer. What is done to the timer
-- is the list of the calls on it.
use audiod.Prelude.{ℕ, ◌%◌, ◌^◌, Option, none, some, List, [], ◌∷◌, ◌==◌, if◌then◌else◌, bit_and}
use audiod.Prelude.Int.{ℤ, pos}
use audiod.Shim.Calls.{einval}

-- In nanoseconds.
abbrev pub poll_timer_ns : ℕ
poll_timer_ns = 10000000

-- `itimerspec`, in nanoseconds.
pub record TimerSpec : Type 0 where
  pub it_interval : ℕ
  pub it_value : ℕ

pub data TimerCall : Type 0 where
  set_time : TimerSpec → TimerCall
  -- a read of eight bytes
  read_expirations : TimerCall

abbrev pub arm_poll_timer : TimerCall
arm_poll_timer = set_time (record { it_interval = 0; it_value = poll_timer_ns })

abbrev pub drain_poll_timer : TimerCall
drain_poll_timer = read_expirations

-- What `snd_pcm_open` does to a timer that it could make.
unfoldable pub open_timer : Option ℕ → List TimerCall
open_timer none = []
open_timer (some fd) = arm_poll_timer ∷ []

pub record PollFd : Type 0 where
  pub fd : ℕ
  pub events : ℕ
  pub revents : ℕ

abbrev pub pollin : ℕ
pollin = 1

-- `snd_pcm_poll_descriptors`: of the handle's timer (the inner `none` where there is none), the first
-- of the caller's entries, and how many there are; the entry, and how many are filled in.
unfoldable pub poll_descriptors : Option (Option ℕ) → Option PollFd → ℕ → Option PollFd × ℕ
poll_descriptors h none nfds = (none, 0)
poll_descriptors none (some p) nfds = (some p, 0)
poll_descriptors (some none) (some p) nfds = (some p, 0)
poll_descriptors (some (some fd)) (some p) nfds =
    if nfds == 0 then (some p, 0) else (some (record { fd = fd; events = pollin; revents = 0 }), 1)

abbrev pub poll_descriptors_count : ℕ
poll_descriptors_count = 1

-- Draining and arming again, on a handle with a timer, where the entry was found readable.
unfoldable pub rearm : Option (Option ℕ) → PollFd → List TimerCall
rearm none p = []
rearm (some none) p = []
rearm (some (some fd)) p =
    if bit_and p.revents pollin == 0 then [] else drain_poll_timer ∷ arm_poll_timer ∷ []

-- `snd_pcm_poll_descriptors_revents`: what the caller's `revents` becomes, the return value, and the
-- calls on the timer.
unfoldable pub poll_descriptors_revents :
    Option (Option ℕ) → Option PollFd → ℕ → Option ℕ → Option ℕ × ℤ × List TimerCall
unfolding rearm
poll_descriptors_revents h pfds nfds none = (none, einval, [])
poll_descriptors_revents h none nfds (some old) = (some 0, pos 0, [])
poll_descriptors_revents h (some p) nfds (some old) =
    if nfds == 0 then (some 0, pos 0, []) else (some (p.revents % 2 ^ 16), pos 0, rearm h p)
