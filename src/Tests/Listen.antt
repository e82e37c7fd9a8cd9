-- ===== src/Tests/Listen.antt =====
-- Connections at small inputs.
use audiod.Prelude.{ℕ, ◌≡◌, refl, true, false, some, List, [], ◌∷◌, arith, take, drop, replicate}
use audiod.Server.State.{initial}
use audiod.Server.Listen.{Answer, came, not_yet, header, read_header, Settings, serve}
use audiod.Server.Listen.Header.{bytes_of, read_header_lem}
use audiod.Server.Listen.Access.{serve_refused}
use audiod.Tests.Toy.{toy_floats}

-- Five bytes, a wait, and nine more.
abbrev in_pieces : List Answer
in_pieces =
    came (1 ∷ 2 ∷ 3 ∷ 4 ∷ 5 ∷ [])
    ∷ not_yet false
    ∷ came (6 ∷ 7 ∷ 8 ∷ 9 ∷ 10 ∷ 11 ∷ 12 ∷ 13 ∷ 14 ∷ [])
    ∷ []

read_header_lem_example :
    (rest : List Answer) × (read_header [] in_pieces ≡ header (take 12 (bytes_of in_pieces)) rest)
    × (bytes_of rest ≡ drop 12 (bytes_of in_pieces))
read_header_lem_example =
    read_header_lem in_pieces (omega arith, (refl, (omega arith, tt))) (omega arith)

abbrev settings : Settings
settings = record {
  live_clients = 0;
  max_clients = 8;
  mix_rate = 48000;
  is_linear = true;
  rounds = 4;
}

-- A stranger asks to mute.
abbrev mute_request : List ℕ
mute_request = 0 ∷ 0 ∷ 0 ∷ 0 ∷ b'M' ∷ []

serve_refused_example :
    serve toy_floats settings (some 1001) 1000 (initial toy_floats) (replicate 12 0) mute_request
    ≡ (initial toy_floats, [], [])
serve_refused_example =
    serve_refused toy_floats settings (some 1001) 1000 (initial toy_floats) (replicate 12 0)
      mute_request (ground arith) (ground arith)
