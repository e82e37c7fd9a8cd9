-- ===== src/Tests/Open.antt =====
-- A controller that comes up with rings, and a list of buffer descriptors.
use audiod.Prelude.{
  ℕ, ◌+◌, ◌*◌, ◌/◌, ◌%◌, ◌^◌, min, ◌≡◌, refl, Bool, true, false, ◌||◌, Option, none, some, List, [],
  ◌∷◌, arith, ◌==◌, if◌then◌else◌, replicate, blit, length-replicate,
}
use audiod.Hda.Device.{Log, Device}
use audiod.Hda.Dbg.{DebugOpts, default_opts, pio}
use audiod.Hda.Playback.Dump.{
  dump_topology, dump_state, dump_nodes, dump_each, dump_node, dump_widget, dump_pin, dump_conn,
  read_or, read_value, first_entries,
}
use audiod.Hda.Playback.Quiet.{Calms, dumps_lem}
use audiod.Hda.Playback.Session.{
  open_hda, open_playback, finish_open, set_up, show_topology, show_state,
}
use audiod.Hda.Playback.Open.{
  Link, take_steps, take_step, try_cmd, probe, probe_all, probe_at, identify, new_stream,
}
use audiod.Hda.Stream
use audiod.Hda.Codec.{Codec, Verb}
use audiod.Hda.Playback.{HdaPlayback, start, play, delay_frames, drop_all, stop}
use audiod.Hda.Mmio.{mapped}
use audiod.Hda.Mmio.Bounds.{IsFine}
use audiod.Hda.Mmio.Opened.{controller_lem}
use audiod.Hda.Mmio.Session.{Then, LeftFine, session_lem}
use audiod.Hda.Rate.{format_val}
use audiod.Hda.Controller.{verb_raw, pio_verb, await_idle, await_valid, make_verb}
use audiod.Hda.Dma
use audiod.Hda.Dma.{DmaBuffer, size, fill}
use audiod.Hda.Dma.Descriptors.{entries_from, fill_lem}
use audiod.Hda.Corb.{Poll, ok, err, Result, program_size, try_sizes}
use audiod.Hda.Corb.Init.{init, program_rings, wait_bit}
use audiod.Hda.Pcicfg.{vendor_device, set_snoop, set_master, read_u16, read_u8, write_u8, write_u16}
use audiod.Hda.Controller
use audiod.Hda.Controller.{Controller, corb}
use audiod.Hda.Controller.Fallback
use audiod.Hda.Controller.Open.{
  Request, cmd, open_controller, pci_setup, known_vendor, bring_up, settle_link, await_unstuck,
  init_cmd_engine, run_cmds,
}
use audiod.Hda.Controller.Verbs.{EngineIsSound}
use audiod.Hda.Controller.Sound.{open_controller_lem}

-- The state counts the writes. The first register shows four streams each way, and the sizes of the
-- rings may be 256.
abbrev eager : Device
eager = record {
  D = ℕ;
  read8 = λ d r. (0x42, d);
  read16 = λ d r. (if r == 0 then 0x4400 else 0, d);
  read32 = λ d r. (0, d);
  write8 = λ d r v. d + 1;
  write16 = λ d r v. d + 1;
  write32 = λ d r v. d + 1;
}

abbrev no_reset : DebugOpts
no_reset = record default_opts { skip_reset = true }

abbrev intel_config : List ℕ
intel_config = 0x86 ∷ 0x80 ∷ replicate 254 0

abbrev brought_up : Controller
brought_up = record {
  codec_mask = 1;
  gcap = 0x4400;
  cad = 0;
  engine = corb (record {
    rb = record { bytes = replicate 4096 0; phys = 8192 ∷ [] };
    count = 256;
    sw_rp = 0;
    pending = [];
  });
  corb_timeouts = 0;
  pio_fallback_done = false;
}

abbrev idle_poll : Poll
idle_poll = record { entry = λ k. (0, 0) }

abbrev two_verbs : List Request
two_verbs =
    let r : Request = record {
      cad = 0;
      nid = 2;
      verb = 0x705;
      payload = 0;
      polls = (idle_poll, []);
      spins = 1;
    } in
    r ∷ r ∷ []

brings_up :
    (open_controller eager no_reset (λ i. 8192) 3 intel_config 0).0 ≡ some (ok brought_up, 16)
unfolding open_controller pci_setup known_vendor vendor_device set_snoop set_master read_u16 read_u8
    write_u8 write_u16 bring_up settle_link await_unstuck init_cmd_engine init program_rings
    wait_bit program_size try_sizes Dma.new Dma.toaddr Dma.zero_bytes
brings_up = refl

open_controller_lem_example :
    (c' : Controller) × (d'' : ℕ) × (run_cmds eager brought_up two_verbs 16 ≡ some (c', d''))
    × EngineIsSound c'.engine
    × Fallback.IsValid c'
open_controller_lem_example =
    open_controller_lem eager no_reset (λ i. 8192) 3 intel_config 0 16 brought_up two_verbs
      brings_up

abbrev two_pages : DmaBuffer
two_pages = record { bytes = replicate 8192 0; phys = 4096 ∷ 20480 ∷ [] }

abbrev empty_list : DmaBuffer
empty_list = record { bytes = replicate 64 0; phys = 8192 ∷ [] }

fill_lem_example :
    let n = min (min 5 (size empty_list / 16)) (size two_pages / 4096) in
    fill empty_list two_pages 5 true
    ≡ some (
      n,
      record empty_list { bytes = blit empty_list.bytes 0 (entries_from two_pages true n n 0) },
    )
fill_lem_example =
    fill_lem empty_list two_pages 5 true (omega (arith, length-replicate {A = ℕ} 8192 0))

-- A device of immediate commands: its state is the last verb, it is always ready, and each widget
-- says that it is what it should be.
abbrev alc269 : Device
alc269 = record {
  D = ℕ;
  read8 = λ d r. (0, d);
  read16 = λ d r. (if r == 0 then 0x4400 else if r == 0x68 then 2 else 0, d);
  read32 = λ d r. (
    let nid = d / 2 ^ 20 % 256 in
        if (nid == 0x0c) || (nid == 0x0d)
        then 0x200000
        else if (nid == 0x14) || (nid == 0x15)
        then 0x400000
        else if nid == 0
        then 0x10ec0269
        else 0,
    d,
  );
  write8 = λ d r v. d;
  write16 = λ d r v. d;
  write32 = λ d r v. if r == 0x60 then v else d;
}

abbrev immediate : DebugOpts
immediate = record default_opts {
  skip_reset = true;
  dump_state = true;
  dump_topology = true;
  cmd_engine = some pio;
}

-- It is opened, with the Realtek codec.
abbrev succeeds : Option (Result (Codec × HdaPlayback) × List Verb × ℕ) → Bool
succeeds none = false
succeeds (some (err e, sent, d)) = false
succeeds (some (ok a, sent, d)) = true

opens :
    succeeds (
      open_hda alc269
        (λ d. (idle_poll, []))
        1
        immediate
        (λ i. 8192)
        (λ i. 16384 + i * 4096)
        (λ i. 12288)
        3
        intel_config
        48000
        0)
    ≡ true
unfolding open_hda open_playback finish_open set_up show_topology show_state dump_topology
    dump_state dump_nodes dump_each dump_node dump_widget dump_pin dump_conn read_or read_value
    first_entries take_steps take_step try_cmd probe probe_all probe_at identify new_stream
    Stream.srst Stream.await_reset Stream.setup cmd verb_raw pio_verb await_idle await_valid
    make_verb open_controller pci_setup known_vendor vendor_device set_snoop set_master read_u16
    read_u8 write_u8 write_u16 bring_up settle_link await_unstuck init_cmd_engine Dma.new Dma.toaddr
    Dma.write Dma.fill Dma.fill_from Dma.make_entry format_val
opens = refl

-- A controller that has come up with immediate commands.
abbrev without_rings : Controller
without_rings = record brought_up { engine = Controller.pio }

abbrev link : Link (Device.D alc269)
link = record { controller = without_rings; sent = []; device = 0 }

dumps_lem_example :
    Calms alc269 ⊥ link (dump_topology alc269 (λ d. (idle_poll, [])) 1 link)
    × Calms alc269 (Unit {0}) link (dump_state alc269 (λ d. (idle_poll, [])) 1 link)
dumps_lem_example = dumps_lem alc269 (λ d. (idle_poll, [])) 1 link (tt, refl)

abbrev session : HdaPlayback
session = record {
  controller = brought_up;
  stream = record { ring = two_pages; bdl = empty_list; entries = 0; write_pos = 0; written = 0 };
  rate = 48000;
  running = true;
  bytes_written = 0;
}

abbrev everything : Log
everything = record { info = true; debug = true }

session_lem_example :
    let d : Bool × ℕ = (true, 0) in
    Then (LeftFine eager {A = HdaPlayback}) (start (mapped eager) everything session d)
    × Then
        (λ (r : ℕ × HdaPlayback × (Bool × ℕ)). IsFine eager r.2)
        (play (mapped eager) everything session (1 ∷ 0 ∷ 2 ∷ 0 ∷ []) d)
    × IsFine eager (delay_frames (mapped eager) session d).1
    × IsFine eager (drop_all (mapped eager) session d).1
    × IsFine eager (stop (mapped eager) session d).1
session_lem_example = session_lem eager everything session (1 ∷ 0 ∷ 2 ∷ 0 ∷ []) (true, 0) refl

controller_lem_example :
    Then
      (λ (r : Result Controller × (Bool × ℕ)). IsFine eager r.1)
      (open_controller (mapped eager) no_reset (λ i. 8192) 3 intel_config (true, 0)).0
    × Then
        (λ (r : Controller × (Bool × ℕ)). IsFine eager r.1)
        (run_cmds (mapped eager) brought_up two_verbs (true, 0))
controller_lem_example =
    controller_lem eager no_reset (λ i. 8192) 3 intel_config brought_up two_verbs (true, 0) refl
