-- ===== src/Hda/Dbg.antt =====
-- hda/src/dbg.rs: the options for debugging, which `configure` sets once for the process.
use audiod.Prelude.{Bool, false, Option, none, some}

pub data CmdEngineKind : Type 0 where
  corb pio : CmdEngineKind

pub record DebugOpts : Type 0 where
  pub skip_reset : Bool
  pub skip_codec_init : Bool
  pub dump_state : Bool
  pub dump_ring : Bool
  pub dump_topology : Bool
  pub cmd_engine : Option CmdEngineKind

abbrev pub default_opts : DebugOpts
default_opts = record {
  skip_reset = false;
  skip_codec_init = false;
  dump_state = false;
  dump_ring = false;
  dump_topology = false;
  cmd_engine = none;
}

-- `opts`, of what `configure` has stored.
unfoldable pub opts : Option DebugOpts → DebugOpts
opts none = default_opts
opts (some o) = o
