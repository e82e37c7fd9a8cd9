-- ===== src/Hda/Playback/Dump.antt =====
-- hda/src/codec.rs: what the two dumps for diagnosis read from a codec, without the text they log.
use audiod.Prelude.{
  ℕ, zero, suc, ◌+◌, ◌*◌, ◌^◌, ◌/◌, min, Option, none, some, List, [], ◌∷◌, ◌==◌, ◌||◌,
  if◌then◌else◌, tabulate, bit_and,
}
use audiod.Hda.Device.{Device}
use audiod.Hda.Corb.{Polls}
use audiod.Hda.Codec.{
  Verb, verb_param, widget_type, nid_dac_spk, nid_dac_hp, nid_mux_spk, nid_mux_hp, nid_pin_spk,
  nid_pin_hp,
}
use audiod.Hda.Io.{Io, ◌>>=◌, give, attempt}
use audiod.Hda.Playback.Open.{Link, controller_of, value_or, try_cmd}

abbrev pub max_nid : ℕ
max_nid = 0x20

abbrev pub read_of : ℕ → ℕ → ℕ → ℕ → Verb
read_of cad nid verb payload = record { cad = cad; nid = nid; verb = verb; payload = payload }

pub record PinDump : Type 0 where
  pub pincap : ℕ
  pub pinctl : ℕ
  pub sense : ℕ

pub record ConnDump : Type 0 where
  pub len : ℕ
  pub sel : ℕ
  pub first : List ℕ

pub record WidgetDump : Type 0 where
  pub nid : ℕ
  pub caps : ℕ
  pub formats : ℕ
  pub pin : Option PinDump
  pub conn : Option ConnDump

-- The entries of the connection list, of four bits each, that come back in one read.
unfoldable pub first_entries : ℕ → ℕ → List ℕ
first_entries entries len = tabulate (min 8 len) (λ i. bit_and (entries / 2 ^ (i * 4)) 0xf)

pub record StateDump : Type 0 where
  pub node : ℕ
  pub stream : ℕ
  pub fmt : ℕ
  pub connection : ℕ
  pub power : ℕ
  pub control : ℕ
  pub eapd : ℕ
  pub amp_out : ℕ

module _ (bus : Device) where
  open bus use {D}

  module _ (shows : D → Polls) (spins : ℕ) where
    -- A read whose failure counts as the given value.
    unfoldable pub read_or : Verb → ℕ → Io (Link D) ℕ
    unfolding try_cmd
    read_or v otherwise = do answer ← try_cmd bus shows spins v; give (value_or answer otherwise)

    -- A read whose failure is passed on.
    unfoldable pub read_value : Verb → Io (Link D) ℕ
    unfolding try_cmd
    read_value v = do answer ← try_cmd bus shows spins v; attempt (λ l. (answer, l))

    unfoldable pub dump_pin : ℕ → ℕ → Io (Link D) PinDump
    unfolding read_or
    dump_pin cad nid = do
      pincap ← read_or (read_of cad nid verb_param 0x0c) 0
      pinctl ← read_or (read_of cad nid 0xf07 0) 0
      sense ← read_or (read_of cad nid 0x709 0) 0
      give (record { pincap = pincap; pinctl = pinctl; sense = sense })

    unfoldable pub dump_conn : ℕ → ℕ → Io (Link D) ConnDump
    unfolding read_or first_entries
    dump_conn cad nid = do
      listed ← read_or (read_of cad nid verb_param 0x0e) 0
      sel ← read_or (read_of cad nid 0xf01 0) 0xffff
      entries ← read_or (read_of cad nid 0xf02 0) 0
      let len = bit_and listed 0x7f
      give (record { len = len; sel = sel; first = first_entries entries len })

    -- A widget that has answered with its capabilities.
    unfoldable pub dump_widget : ℕ → ℕ → ℕ → Io (Link D) WidgetDump
    unfolding read_or dump_pin dump_conn
    dump_widget cad nid caps = do
      formats ← read_or (read_of cad nid verb_param 0x0b) 0
      pin ← if widget_type caps == 4 then (dump_pin cad nid >>= λ p. give (some p)) else give none
      conn ←
          if bit_and caps (2 ^ 6) == 0 then give none else dump_conn cad nid >>= λ c. give (some c)
      give (record { nid = nid; caps = caps; formats = formats; pin = pin; conn = conn })

    -- The loop over the nodes from `nid` on; one without capabilities is left out.
    unfoldable pub dump_nodes : ℕ → ℕ → ℕ → Io (Link D) (List WidgetDump)
    unfolding read_or dump_widget
    dump_nodes cad zero nid = give []
    dump_nodes cad (suc left) nid = do
      caps ← read_or (read_of cad nid verb_param 0x09) 0
      if (caps == 0) || (caps == 0xffffffff)
          then dump_nodes cad left (nid + 1)
          else dump_widget cad nid caps >>= λ w.
              dump_nodes cad left (nid + 1) >>= λ ws. give (w ∷ ws)

    unfoldable pub dump_topology : Io (Link D) (List WidgetDump)
    unfolding dump_nodes
    dump_topology = do c ← controller_of; dump_nodes c.cad max_nid 1

    unfoldable pub dump_node : ℕ → ℕ → Io (Link D) StateDump
    unfolding read_value
    dump_node cad nid = do
      stream ← read_value (read_of cad nid 0xf06 0)
      fmt ← read_value (read_of cad nid 0xa00 0)
      connection ← read_value (read_of cad nid 0xf01 0)
      power ← read_value (read_of cad nid 0xf05 0)
      control ← read_value (read_of cad nid 0xf07 0)
      eapd ← read_value (read_of cad nid 0xf0c 0)
      amp_out ← read_value (read_of cad nid 0xb00 0xa000)
      give (record {
        node = nid;
        stream = stream;
        fmt = fmt;
        connection = connection;
        power = power;
        control = control;
        eapd = eapd;
        amp_out = amp_out;
      })

    -- The nodes of both ways, one by one.
    unfoldable pub dump_each : ℕ → List ℕ → Io (Link D) (List StateDump)
    unfolding dump_node
    dump_each cad [] = give []
    dump_each cad (nid ∷ nids) = do s ← dump_node cad nid; ss ← dump_each cad nids; give (s ∷ ss)

    unfoldable pub dump_state : Io (Link D) (List StateDump)
    unfolding dump_each
    dump_state = do
      c ← controller_of
      dump_each c.cad
          (nid_dac_spk ∷ nid_dac_hp ∷ nid_mux_spk ∷ nid_mux_hp ∷ nid_pin_spk ∷ nid_pin_hp ∷ [])
