-- ===== src/Tests/Hda.antt =====
-- The driver at small inputs.
use audiod.Prelude.{
  ℕ, ◌+◌, ◌*◌, ◌/◌, ◌≤◌, ◌<◌, ◌≡◌, refl, ◌≢◌, false, some, List, [], ◌∷◌, ◌++◌, arith, ◌==◌,
  if◌then◌else◌, length, take, replicate, blit, tabulate, length-replicate,
}
use audiod.Prelude.Bytes.{u32_le}
use audiod.Hda.Device.{Device}
use audiod.Hda.Dma
use audiod.Hda.Dma.{DmaBuffer}
use audiod.Hda.Rate.{encode_rate, find_base, find_mult, find_div}
use audiod.Hda.Rate.Exact.{clock, encode_rate_exact, encode_rate_complete}
use audiod.Hda.Stream.{ring_size, Stream, delay_bytes, free_space, write_at}
use audiod.Hda.Stream.Queue.{IsValid, pending, write_at_lem, write_at_full}
use audiod.Hda.Corb.{
  CorbRing, Poll, ok, err, timed_out, collect_entries, collect_loop, read_entry, rirbwp,
  wait_response, poll_loop, poll_once, solicited_in, route_entry, send,
}
use audiod.Hda.Corb.Drain.{ahead, slot, collect_entries_lem, late_response}
use audiod.Hda.Controller.{Controller, corb, settle, verb_raw, corb_verb, make_verb}
use audiod.Hda.Controller.Fallback
use audiod.Hda.Controller.Fallback.{verb_raw-IsValid, OnPio}
use audiod.Server.Backend.{hda_rates, nearest_hda_rate, offer}
use audiod.Server.Backend.Pacing.{NoneNearer, offer_lem, nearest_hda_rate_lem}

-- A stream whose writer stands at `at`.
abbrev stream_at : ℕ → Stream
stream_at pos = record {
  ring = record { bytes = replicate ring_size 0; phys = [] };
  bdl = record { bytes = []; phys = [] };
  entries = 64;
  write_pos = pos;
  written = 0;
}

stream_at-IsValid : (pos : ℕ) → pos < ring_size → IsValid (stream_at pos)
stream_at-IsValid pos h = record { sized = length-replicate {A = ℕ} ring_size 0; inside = h }

abbrev four : List ℕ
four = 1 ∷ 2 ∷ 3 ∷ 4 ∷ []

-- Over the end of the ring.
write_at_lem_example :
    (s' : Stream) × (write_at (stream_at 262142) 262000 four ≡ some (4, s'))
    × IsValid s'
    × (pending s' 262000 ≡ pending (stream_at 262142) 262000 ++ four)
unfolding free_space
write_at_lem_example =
    write_at_lem (stream_at 262142) 262000 four (stream_at-IsValid 262142 (omega arith))
      (omega arith) (omega arith)

write_at_full_example :
    (s' : Stream) × (write_at (stream_at 10) 14 four ≡ some (4, s'))
    × (delay_bytes s' 14 ≡ 0)
    × (free_space s' 14 ≡ ring_size)
unfolding free_space
write_at_full_example =
    write_at_full (stream_at 10) 14 four (stream_at-IsValid 10 (omega arith)) (omega arith)
      (omega arith) refl

encode_rate_exact_example :
    (clock 1 * 1 ≡ 22050 * 2) × (1 ≤ 1) × (1 ≤ 8) × (1 ≤ 2) × (2 ≤ 8) × (1 ≤ 1)
unfolding encode_rate find_base find_mult find_div
encode_rate_exact_example = encode_rate_exact 22050 1 1 2 (omega arith) refl

encode_rate_complete_example : clock 0 * 1 ≢ 12345 * 4
unfolding encode_rate find_base find_mult find_div
encode_rate_complete_example =
    encode_rate_complete 12345 0 1 4 refl (omega arith) (omega arith) (omega arith) (omega arith)

abbrev numbered : ℕ → ℕ × ℕ
numbered k = (k, 0)

collect_entries_lem_example :
    collect_entries 16 (λ k. some (numbered k)) 14 1 16
    ≡ some (tabulate (ahead 14 1 16) (λ k. numbered (slot 14 16 (k + 1))))
collect_entries_lem_example =
    collect_entries_lem 16 (λ k. some (numbered k)) numbered 14 1 16 (omega arith) (omega arith)
      (omega arith) (λ i h. refl)

abbrev small_page : DmaBuffer
small_page = record { bytes = replicate 4096 0; phys = 8192 ∷ [] }

abbrev small_ring : CorbRing
small_ring = record { rb = small_page; count = 2; sw_rp = 0; pending = [] }

-- The controller shows the answer 42 of codec 0 in each entry.
abbrev answer_42 : Poll
answer_42 = record { entry = λ k. (42, 0) }

-- Registers that always read as the number of writes and reads up to then.
abbrev counting : Device
counting = record {
  D = ℕ;
  read8 = λ d r. (d, d + 1);
  read16 = λ d r. (d, d + 1);
  read32 = λ d r. (d, d + 1);
  write8 = λ d r v. d + 1;
  write16 = λ d r v. d + 1;
  write32 = λ d r v. d + 1;
}

-- One poll shows position 0, and the next one, for a later verb, position 1.
late_response_example :
    ((d' : ℕ) × (wait_response counting 0 small_ring (answer_42, []) 0
        ≡ some (small_ring, err timed_out, d')))
    × (wait_response counting 0 small_ring (answer_42, []) 1
        ≡ some (record small_ring { sw_rp = 1; pending = [] }, ok 42, 2))
unfolding route_entry
late_response_example =
    late_response counting 0 42 0 small_ring (answer_42, []) (answer_42, []) 0 1 small_page refl
      (omega arith) (omega arith) (length-replicate {A = ℕ} 4096 0) refl refl (omega arith) refl
      refl

abbrev with_rings : Controller
with_rings = record {
  codec_mask = 1;
  gcap = 0x4401;
  cad = 0;
  engine = corb small_ring;
  corb_timeouts = 2;
  pio_fallback_done = false;
}

-- Registers that always read as 2, but for the position of the responses.
abbrev twos : Device
twos = record {
  D = ℕ;
  read8 = λ d r. (2, d);
  read16 = λ d r. (if r == rirbwp then 1 else 2, d);
  read32 = λ d r. (2, d);
  write8 = λ d r v. d + 1;
  write16 = λ d r v. d + 1;
  write32 = λ d r v. d + 1;
}

abbrev answered : Controller
answered = record with_rings {
  engine = corb (record small_ring {
    rb = record {
      bytes = blit small_page.bytes 4 (u32_le (make_verb 0 2 0xf00 9));
      phys = 8192 ∷ [];
    };
    sw_rp = 1;
  });
  corb_timeouts = 0;
}

verb_raw-IsValid_example :
    Fallback.IsValid answered × (OnPio with_rings.engine → OnPio answered.engine)
unfolding verb_raw corb_verb send Dma.write wait_response poll_loop poll_once collect_entries
    collect_loop read_entry solicited_in route_entry settle
verb_raw-IsValid_example =
    verb_raw-IsValid twos with_rings answered 0 2 0xf00 9 (answer_42, []) 3 0 1 (ok 42) refl
      (refl, omega arith)

offer_lem_example :
    let s = stream_at 400 in
    let part = take (offer (delay_bytes s 0 / 4) (length four)) four in
    (s' : Stream) × (write_at s 100 part ≡ some (length part, s'))
    × IsValid s'
    × (pending s' 100 ≡ pending s 100 ++ part)
    × (length (pending s' 100) ≤ 16384)
unfolding delay_bytes
offer_lem_example =
    offer_lem (stream_at 400) 0 100 four (stream_at-IsValid 400 (omega arith)) (omega arith)
      (omega arith) refl (omega arith) (omega arith)

nearest_hda_rate_lem_example : NoneNearer 12345 (nearest_hda_rate 12345) hda_rates
nearest_hda_rate_lem_example = nearest_hda_rate_lem 12345
