-- ===== src/Server/Listen/Access.antt =====
-- Who gets through to the handlers.
use audiod.Prelude.{
  ℕ, ◌≡◌, refl, ap, ◌≢◌, inl, inr, false, Option, none, some, List, [], ◌==◌, ==_iff, Bool-cases,
}
use audiod.Prelude.Float.{Floats}
use audiod.Server.State.{ServerState}
use audiod.Server.Listen.{
  peer_allowed, Handler, control, pcm, dropped, dispatch, Settings, handle, serve,
}

refused :
    (peer : Option ℕ) (trusted : ℕ)
    → peer ≢ some 0
    → peer ≢ some trusted
    → peer_allowed peer trusted ≡ false
unfolding peer_allowed
refused none trusted p q = refl
refused (some uid) trusted p q = elim (Bool-cases (uid == 0)) [
  | inl e ↦ absurd (p (ap (λ (u : ℕ). some u) ((==_iff uid 0).0 e)))
  | inr e ↦ elim (Bool-cases (uid == trusted)) [
    | inl e' ↦ absurd (q (ap (λ (u : ℕ). some u) ((==_iff uid trusted).0 e')))
    | inr e' ↦ rw (e, e') refl
  ]
]

refused_by :
    (fl : Floats) (settings : Settings) (s : ServerState) (stream : List ℕ) (h : Handler)
    → handle fl settings false s stream h ≡ (s, [], [])
unfolding handle
refused_by fl settings s stream control = refl
refused_by fl settings s stream dropped = refl
refused_by fl settings s stream (pcm cfg) = refl

-- A connection of a peer that is not known, or is neither root nor the trusted user, changes
-- nothing in the server, gets no reply and puts nothing into any ring, whatever header and bytes
-- it sends.
pub serve_refused :
    (fl : Floats) (settings : Settings) (peer : Option ℕ) (trusted : ℕ) (s : ServerState)
    (hdr stream : List ℕ)
    → peer ≢ some 0
    → peer ≢ some trusted
    → serve fl settings peer trusted s hdr stream ≡ (s, [], [])
unfolding serve
serve_refused fl settings peer trusted s hdr stream p q =
    rw (refused peer trusted p q) (refused_by fl settings s stream (dispatch hdr))
