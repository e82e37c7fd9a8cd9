-- ===== src/Hda/Playback/Quiet.antt =====
-- What the two dumps do to a codec and to the controller, on any device.
use audiod.Prelude.{
  ℕ, zero, suc, ◌+◌, ◌^◌, ◌≡◌, refl, sym, ap, ◌∙◌, Bool, true, false, ◌||◌, Option, none, some,
  List, [], ◌∷◌, ◌++◌, ◌==◌, if◌then◌else◌, bit_and,
}
use mathlib.Core.List.{append_assoc, append-nil}
use audiod.Hda.Device.{Device}
use audiod.Hda.Corb.{Polls, Result, ok, err}
use audiod.Hda.Controller.Open.{cmd}
use audiod.Hda.Controller.Sound.{IsReady, cmd-IsReady}
use audiod.Hda.Codec.{
  Verb, contains, widget_type, nid_dac_spk, nid_dac_hp, nid_mux_spk, nid_mux_hp, nid_pin_spk,
  nid_pin_hp,
}
use audiod.Hda.Io.{Io, after, ◌>>=◌}
use audiod.Hda.Playback.Open.{Link, request, try_cmd}
use audiod.Hda.Playback.Probed.{Meets}
use audiod.Hda.Controller.Kept.{IsSame, verb_raw-IsSame}
use audiod.Hda.Playback.Dump.{
  read_of, read_or, read_value, dump_pin, dump_conn, dump_widget, dump_nodes, dump_topology,
  dump_node, dump_each, dump_state,
}

-- The verbs by which the set-up of a codec changes it.
abbrev pub set_verbs : List ℕ
set_verbs = 0x200 ∷ 0x300 ∷ 0x701 ∷ 0x705 ∷ 0x706 ∷ 0x707 ∷ 0x70c ∷ []

abbrev pub AllQuiet : List Verb → Type 0
AllQuiet [] = Unit {0}
AllQuiet (v ∷ vs) = (contains set_verbs v.verb ≡ false) × AllQuiet vs

AllQuiet-append : (us vs : List Verb) → AllQuiet us → AllQuiet vs → AllQuiet (us ++ vs)
AllQuiet-append [] vs h k = k
AllQuiet-append (u ∷ us) vs h k = (h.0, AllQuiet-append us vs h.1 k)

module _ (bus : Device) where
  open bus use {D}

  -- From the first state the second is reached with such verbs only.
  pub record IsCalm (l l' : Link D) : Type 0 where
    pub ready : IsReady bus l'.controller
    pub verbs : List Verb
    pub sent : l'.sent ≡ l.sent ++ verbs
    pub quiet : AllQuiet verbs
    pub same : IsSame l.controller l'.controller

  IsCalm-trans : (a b c : Link D) → IsCalm a b → IsCalm b c → IsCalm a c
  IsCalm-trans a b c h k = record {
    ready = k.ready;
    verbs = h.verbs ++ k.verbs;
    sent =
        k.sent
        ∙ (ap (λ (vs : List Verb). vs ++ k.verbs) h.sent ∙ append_assoc a.sent h.verbs k.verbs);
    quiet = AllQuiet-append h.verbs k.verbs h.quiet k.quiet;
    same = (k.same.0 ∙ h.same.0, k.same.1 ∙ h.same.1);
  }

  -- No assertion fails, and an error comes only where `E` holds.
  abbrev pub Calms : {A : Type 0} → Type 0 → Link D → Option (Result A × Link D) → Type 0
  Calms E l none = ⊥
  Calms E l (some (err e, l')) = E × IsCalm l l'
  Calms E l (some (ok a, l')) = IsCalm l l'

  abbrev pub AlwaysCalms : {A : Type 0} → Type 0 → Io (Link D) A → Type 0
  AlwaysCalms E m = (l : Link D) → IsReady bus l.controller → Calms E l (m l)

  Calms-after :
      {A B : Type 0} (E : Type 0) (l : Link D) (r : Option (Result A × Link D))
      (f : A → Io (Link D) B)
      → Calms E l r
      → ((a : A) → AlwaysCalms E (f a))
      → Calms E l (after r f)
  Calms-after E l none f h k = absurd h
  Calms-after E l (some (err e, l')) f h k = h
  Calms-after {A} {B} E l (some (ok a, l')) f h k = onwards (f a l') (k a l' h.ready)
    where
      onwards : (r : Option (Result B × Link D)) → Calms E l' r → Calms E l r
      onwards none v = v
      onwards (some (err e, l2)) v = (v.0, IsCalm-trans l l' l2 h v.1)
      onwards (some (ok b, l2)) v = IsCalm-trans l l' l2 h v

  bind-AlwaysCalms :
      {A B : Type 0} (E : Type 0) (m : Io (Link D) A) (f : A → Io (Link D) B)
      → AlwaysCalms E m
      → ((a : A) → AlwaysCalms E (f a))
      → AlwaysCalms E (m >>= f)
  bind-AlwaysCalms E m f h k l v = Calms-after E l (m l) f (h l v) k

  pub Calms-Meets :
      {A : Type 0} (E : Type 0) (l : Link D) (r : Option (Result A × Link D))
      → Calms E l r
      → Meets (λ (a : A) (l' : Link D). IsCalm l l') r
  Calms-Meets E l none h = h
  Calms-Meets E l (some (err e, l')) h = tt
  Calms-Meets E l (some (ok a, l')) h = h

  -- Nothing is sent.
  IsCalm-refl : (l : Link D) → IsReady bus l.controller → IsCalm l l
  IsCalm-refl l v = record {
    ready = v;
    verbs = [];
    sent = sym (append-nil l.sent);
    quiet = tt;
    same = (refl, refl);
  }

  module _ (shows : D → Polls) (spins : ℕ) where
    try_cmd-AlwaysCalms :
        (E : Type 0) (v : Verb)
        → contains set_verbs v.verb ≡ false
        → AlwaysCalms E (try_cmd bus shows spins v)
    unfolding try_cmd cmd
    try_cmd-AlwaysCalms E v q l h =
        let (c', a, d', e, h') =
          cmd-IsReady bus l.controller (request bus shows spins v l.device) l.device h in
        rw (e, try_cmd)
          (record {
            ready = h';
            verbs = v ∷ [];
            sent = refl;
            quiet = (q, tt);
            same =
                verb_raw-IsSame bus l.controller c' v.cad v.nid v.verb v.payload (shows l.device)
                  spins l.device d' a e;
          })

    read_or-AlwaysCalms :
        (E : Type 0) (cad nid verb payload otherwise : ℕ)
        → contains set_verbs verb ≡ false
        → AlwaysCalms E (read_or bus shows spins (read_of cad nid verb payload) otherwise)
    unfolding read_or
    read_or-AlwaysCalms E cad nid verb payload otherwise q =
        bind-AlwaysCalms E _ _ (try_cmd-AlwaysCalms E (read_of cad nid verb payload) q)
          (λ answer. IsCalm-refl)

    read_value-AlwaysCalms :
        (cad nid verb payload : ℕ)
        → contains set_verbs verb ≡ false
        → AlwaysCalms (Unit {0}) (read_value bus shows spins (read_of cad nid verb payload))
    unfolding read_value
    read_value-AlwaysCalms cad nid verb payload q =
        bind-AlwaysCalms (Unit {0}) _ _
          (try_cmd-AlwaysCalms (Unit {0}) (read_of cad nid verb payload) q) given
      where
        given : (r : Result ℕ) → AlwaysCalms (Unit {0}) (λ l. some (r, l))
        given (ok n) l h = IsCalm-refl l h
        given (err e) l h = (tt, IsCalm-refl l h)

    dump_pin-AlwaysCalms :
        (E : Type 0) (cad nid : ℕ) → AlwaysCalms E (dump_pin bus shows spins cad nid)
    unfolding dump_pin
    dump_pin-AlwaysCalms E cad nid =
        bind-AlwaysCalms E _ _ (read_or-AlwaysCalms E cad nid 0xf00 0x0c 0 refl) (λ pincap.
          bind-AlwaysCalms E _ _ (read_or-AlwaysCalms E cad nid 0xf07 0 0 refl) (λ pinctl.
            bind-AlwaysCalms E _ _ (read_or-AlwaysCalms E cad nid 0x709 0 0 refl)
              (λ sense. IsCalm-refl)))

    dump_conn-AlwaysCalms :
        (E : Type 0) (cad nid : ℕ) → AlwaysCalms E (dump_conn bus shows spins cad nid)
    unfolding dump_conn
    dump_conn-AlwaysCalms E cad nid =
        bind-AlwaysCalms E _ _ (read_or-AlwaysCalms E cad nid 0xf00 0x0e 0 refl) (λ listed.
          bind-AlwaysCalms E _ _ (read_or-AlwaysCalms E cad nid 0xf01 0 0xffff refl) (λ sel.
            bind-AlwaysCalms E _ _ (read_or-AlwaysCalms E cad nid 0xf02 0 0 refl)
              (λ entries. IsCalm-refl)))

    if-AlwaysCalms :
        {A : Type 0} (E : Type 0) (test : Bool) (m n : Io (Link D) A)
        → AlwaysCalms E m
        → AlwaysCalms E n
        → AlwaysCalms E (if test then m else n)
    if-AlwaysCalms E true m n h k = h
    if-AlwaysCalms E false m n h k = k

    dump_widget-AlwaysCalms :
        (E : Type 0) (cad nid caps : ℕ) → AlwaysCalms E (dump_widget bus shows spins cad nid caps)
    unfolding dump_widget
    dump_widget-AlwaysCalms E cad nid caps =
        bind-AlwaysCalms E _ _ (read_or-AlwaysCalms E cad nid 0xf00 0x0b 0 refl) (λ formats.
          bind-AlwaysCalms E _ _
            (if-AlwaysCalms E (widget_type caps == 4) _ _
              (bind-AlwaysCalms E _ _ (dump_pin-AlwaysCalms E cad nid) (λ p. IsCalm-refl))
              IsCalm-refl)
            (λ pin.
              bind-AlwaysCalms E _ _
                (if-AlwaysCalms E (bit_and caps (2 ^ 6) == 0) _ _ IsCalm-refl
                  (bind-AlwaysCalms E _ _ (dump_conn-AlwaysCalms E cad nid) (λ c. IsCalm-refl)))
                (λ conn. IsCalm-refl)))

    dump_nodes-AlwaysCalms :
        (E : Type 0) (cad left nid : ℕ) → AlwaysCalms E (dump_nodes bus shows spins cad left nid)
    unfolding dump_nodes
    dump_nodes-AlwaysCalms E cad zero nid = IsCalm-refl
    dump_nodes-AlwaysCalms E cad (suc left) nid =
        let rest = dump_nodes-AlwaysCalms E cad left (nid + 1) in
        bind-AlwaysCalms E _ _ (read_or-AlwaysCalms E cad nid 0xf00 0x09 0 refl) (λ caps.
          if-AlwaysCalms E ((caps == 0) || (caps == 0xffffffff)) _ _ rest (
            bind-AlwaysCalms E _ _ (dump_widget-AlwaysCalms E cad nid caps)
              (λ w. bind-AlwaysCalms E _ _ rest (λ ws. IsCalm-refl))))

    dump_node-AlwaysCalms :
        (cad nid : ℕ) → AlwaysCalms (Unit {0}) (dump_node bus shows spins cad nid)
    unfolding dump_node
    dump_node-AlwaysCalms cad nid =
        let E = Unit {0} in
        bind-AlwaysCalms E _ _ (read_value-AlwaysCalms cad nid 0xf06 0 refl) (λ stream.
          bind-AlwaysCalms E _ _ (read_value-AlwaysCalms cad nid 0xa00 0 refl) (λ fmt.
            bind-AlwaysCalms E _ _ (read_value-AlwaysCalms cad nid 0xf01 0 refl) (λ connection.
              bind-AlwaysCalms E _ _ (read_value-AlwaysCalms cad nid 0xf05 0 refl) (λ power.
                bind-AlwaysCalms E _ _ (read_value-AlwaysCalms cad nid 0xf07 0 refl) (λ control.
                  bind-AlwaysCalms E _ _ (read_value-AlwaysCalms cad nid 0xf0c 0 refl) (λ eapd.
                    bind-AlwaysCalms E _ _ (read_value-AlwaysCalms cad nid 0xb00 0xa000 refl)
                      (λ amp_out. IsCalm-refl)))))))

    dump_each-AlwaysCalms :
        (cad : ℕ) (nids : List ℕ) → AlwaysCalms (Unit {0}) (dump_each bus shows spins cad nids)
    unfolding dump_each
    dump_each-AlwaysCalms cad [] = IsCalm-refl
    dump_each-AlwaysCalms cad (nid ∷ nids) =
        let E = Unit {0} in
        bind-AlwaysCalms E _ _ (dump_node-AlwaysCalms cad nid)
          (λ s. bind-AlwaysCalms E _ _ (dump_each-AlwaysCalms cad nids) (λ ss. IsCalm-refl))

    -- On a ready controller of any device, neither dump fails an assertion and both leave the
    -- controller ready, also where dumping the state ends with an error; the verbs they send are
    -- none of those by which the set-up of a codec changes it, and dumping the topology never ends
    -- with an error.
    pub dumps_lem :
        (l : Link D)
        → IsReady bus l.controller
        → Calms ⊥ l (dump_topology bus shows spins l)
          × Calms (Unit {0}) l (dump_state bus shows spins l)
    unfolding dump_topology dump_state
    dumps_lem l v = (
      dump_nodes-AlwaysCalms ⊥ l.controller.cad 0x20 1 l v,
      dump_each-AlwaysCalms l.controller.cad
          (nid_dac_spk ∷ nid_dac_hp ∷ nid_mux_spk ∷ nid_mux_hp ∷ nid_pin_spk ∷ nid_pin_hp ∷ []) l v,
    )
