-- ===== src/Server/Listen/Header.antt =====
-- How the header of a connection is put together.
use audiod.Prelude.{
  ℕ, ◌+◌, ◌-◌, ◌≤◌, ◌<◌, ◌≡◌, refl, sym, ap, inl, inr, true, false, List, [], ◌∷◌, ◌++◌, arith, leb,
  Bool-cases, length, take, drop, length-append, length-drop,
}
use mathlib.Core.List.{append-nil, append_assoc}
use audiod.Prelude.Splits.{
  take_behind, drop_behind, take_within, drop_within, take_whole, List-cases,
}
use audiod.Server.Listen.{Answer, came, not_yet, broken, header, read_header}

-- The bytes that a connection brings, in order.
abbrev pub bytes_of : List Answer → List ℕ
bytes_of [] = []
bytes_of (came bytes ∷ reads) = bytes ++ bytes_of reads
bytes_of (not_yet late ∷ reads) = bytes_of reads
bytes_of (broken ∷ reads) = bytes_of reads

-- Bytes come in pieces that are not empty, and none is waited for past the deadline.
abbrev pub AllTimely : List Answer → Type 0
AllTimely [] = Unit {0}
AllTimely (came bytes ∷ reads) = (0 < length bytes) × AllTimely reads
AllTimely (not_yet late ∷ reads) = (late ≡ false) × AllTimely reads
AllTimely (broken ∷ reads) = ⊥

-- The loop gives the first twelve bytes and leaves those behind them.
abbrev Reads : List ℕ → List Answer → Type 0
Reads got reads =
    (rest : List Answer) × (read_header got reads ≡ header (take 12 (got ++ bytes_of reads)) rest)
    × (bytes_of rest ≡ drop 12 (got ++ bytes_of reads))

full :
    (got : List ℕ) (ys : List ℕ)
    → length got ≡ 12
    → (take 12 (got ++ ys) ≡ got) × (drop 12 (got ++ ys) ≡ ys)
full got ys e =
    let z : 12 - length got ≡ 0 = omega arith in
    (
      rw (take_behind 12 got ys (omega arith)) (rw z (append-nil got)),
      rw (drop_behind 12 got ys (omega arith)) (rw z refl),
    )

-- A piece that there is room for is taken whole.
Reads-came :
    (got : List ℕ) (b : ℕ) (bs : List ℕ) (reads : List Answer)
    → leb 12 (length got) ≡ false
    → drop (12 - length got) (b ∷ bs) ≡ []
    → take (12 - length got) (b ∷ bs) ≡ b ∷ bs
    → Reads (got ++ b ∷ bs) reads
    → Reads got (came (b ∷ bs) ∷ reads)
unfolding read_header
Reads-came got b bs reads l e w (rest, p, q) =
    let a = append_assoc got (b ∷ bs) (bytes_of reads) in
    (rest, rw (l, read_header) (rw (e, read_header) (rw (w, ← a) p)), rw (← a) q)

read_header_from :
    (got : List ℕ) (reads : List Answer)
    → length got ≤ 12
    → AllTimely reads
    → 12 ≤ length got + length (bytes_of reads)
    → Reads got reads
unfolding read_header
read_header_from got [] h t m =
    let f = full got [] (omega arith) in
    let l : leb 12 (length got) ≡ true = ground arith in
    ([], rw (l, read_header) (rw f.0 refl), sym f.1)
read_header_from got (came [] ∷ reads) h t m = absurd (omega arith)
read_header_from got (came (b ∷ bs) ∷ reads) h t m =
    let room = 12 - length got in
    let chunk = b ∷ bs in
    elim (Bool-cases (leb 12 (length got))) [
      | inl l ↦
          let f = full got (chunk ++ bytes_of reads) (ground arith) in
          (came chunk ∷ reads, rw (l, read_header, f.0) refl, sym f.1)
      | inr l ↦ elim (List-cases (drop room chunk)) [
        | inl e ↦
            let k : length chunk ≤ room =
              omega (arith, length-drop room chunk, ap (λ (l : List ℕ). length l) e) in
            let n = length-append got chunk in
            let next =
              read_header_from (got ++ chunk) reads (omega arith) t.1
                (omega (arith, length-append chunk (bytes_of reads))) in
            Reads-came got b bs reads l e (take_whole room chunk k) next
        | inr (c, cs, e) ↦
            let k : room ≤ length chunk =
              omega (arith, length-drop room chunk, ap (λ (l : List ℕ). length l) e) in
            (
              came (c ∷ cs) ∷ reads,
              rw (l, read_header)
                  (rw (e, read_header)
                    (rw
                      (
                        take_behind 12 got (chunk ++ bytes_of reads) h,
                        take_within room chunk (bytes_of reads) k,
                      )
                      refl)),
              rw
                  (
                    drop_behind 12 got (chunk ++ bytes_of reads) h,
                    drop_within room chunk (bytes_of reads) k,
                    e,
                  )
                  refl,
            )
      ]
    ]
read_header_from got (not_yet late ∷ reads) h t m = elim (Bool-cases (leb 12 (length got))) [
  | inl l ↦
      let f = full got (bytes_of reads) (ground arith) in
      (not_yet late ∷ reads, rw (l, read_header) (rw f.0 refl), sym f.1)
  | inr l ↦
      let (rest, e, e') = read_header_from got reads h t.1 m in
      (rest, rw (l, read_header) (rw (t.0, read_header) e), e')
]
read_header_from got (broken ∷ reads) h t m = absurd t

-- If a connection brings twelve bytes or more, in pieces that are not empty, and no read fails or
-- is waited for past the deadline, then reading the header ends, with just the first twelve bytes
-- however they were cut, and leaves the bytes behind them to the handler.
pub read_header_lem :
    (reads : List Answer)
    → AllTimely reads
    → 12 ≤ length (bytes_of reads)
    → (rest : List Answer) × (read_header [] reads ≡ header (take 12 (bytes_of reads)) rest)
      × (bytes_of rest ≡ drop 12 (bytes_of reads))
read_header_lem reads t m = read_header_from [] reads (omega arith) t (omega arith)
