-- ===== src/Lib.antt =====
-- audiod plays the sound of several applications on one Intel HD-Audio controller from user space.
-- An application loads the shim (shim/) in the place of libasound; its writes go into a ring buffer,
-- from which a drain thread sends them over a Unix socket. The server (server/) has a reader thread
-- for each client, which converts what arrives to stereo samples of 16 bits at the mix rate and puts
-- them into the client's own ring, and a mixer thread, which adds the rings up and feeds the
-- driver (hda/). Control clients (ctl/) change the volume and ask for the status over the same socket.
--
-- Prelude     numbers, Boolean tests, lists, bytes, signed integers; the floating-point numbers of
--             the machine are a record of operations without laws, an argument of what uses them
-- Common      common/src: Audio is lib.rs, Config is config.rs, Ring is ring.rs with Fifo as
--             its specification. A call on a ring is one critical section of its mutex; a call that
--             waits on a condition variable is a reply of its own and leaves the ring as it is
-- Server      server/src: State is `ServerState`, Command is `parse_header`, `Cmd` and
--             `handle_control`, Dsp is dsp.rs, Reader is `reader_client`, Backend is backend.rs,
--             Mixer is mixer.rs with one turn of the mixer's loop as a function, Mixer/Report what
--             that turn stores for the status, World the threads together, as steps on one state in
--             any order, Wav is `load_wav`, Listen is `run_server` up to the handlers, Player is
--             player.rs with the two play loops, Args is `main`, Local is their control socket and
--             the LED of the mute
-- Hda         hda/src: Device is the registers as an abstract device, Mmio the checks that
--             mmio.rs makes of each access, Io the steps on one that may fail, Dma is pagemap.rs
--             and bdl.rs, Pagemap is `vaddr_to_phys`, Rate and Stream are stream.rs, Corb is
--             corb.rs with Corb/Init for its start, Controller is controller.rs with
--             Controller/Open for its start, Codec is codec.rs, Playback is lib.rs
--             with Playback/Open for what opening does with the codecs, Playback/Dump for the
--             dumps of codec.rs, Playback/Session for opening as a whole, Playback/Selftest for
--             the tone, Pcicfg and Dbg are pcicfg.rs and dbg.rs
-- Shim        shim/src/lib.rs: `snd_pcm_t` with the flags of the process, the calls of an
--             application, the delay model, the drain thread; Status is the status buffer, Params the
--             parameter blobs, Send is `write_all`, Symbols is `dlopen`, `dlsym` and the table of
--             names, Poll the timer that clients wait on, Output the message buffer, Texts what is
--             given as text, Fixed the calls with a fixed answer
-- Ctl         ctl/src/main.rs: the bytes of a request, with Args for its command line
-- Tests       the theorems at concrete inputs
--
-- Bytes are natural numbers below 256. A reader's socket is the list of the bytes that arrive; the
-- loops over it run on fuel, of which each round takes one, and a run that has used it up has been
-- stopped there, as a shutdown does. The resampler's loop is given as many rounds as there are
-- positions in its history, which is enough since each round moves on by at least one. Sums of
-- counters are taken not to overflow 64 bits; what is cut to 16 or 32 bits in the source is cut here,
-- and the mixer's sums wrap around to 32 bits, as they do in a release build.
-- Clocks, credentials and whether a system call succeeds are arguments.
--
-- In World a turn of the mixer, an event of a reader, and the check of the limit of clients with the
-- registration behind it are one step each.
--
-- A deadline is the number of polls that come before it; a verb over the rings polls at least once.
-- Each poll reads the position register from the device; the entries that the controller has written
-- into the page by then are an argument. A failed assertion of the driver, on which
-- the source panics, is a result of its own; over Mmio it is a flag in the state of the device.
--
-- Not modelled: the text of the configuration file, log lines and what is printed, which no other
-- part reads but for the registers that a line of the log names, the listing of rates and the parsing
-- of the self-test's options.

pub mod Prelude
pub mod Common
pub mod Hda
pub mod Server
pub mod Shim
pub mod Ctl
pub mod Tests
