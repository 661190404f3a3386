-- ===== src/Fs/Attempts.antt =====
-- One attempt of a blocking read from the terminal.
use rockos.Prelude.{
  ℕ, ◌≤◌, ◌<◌, ◌≡◌, refl, sym, ap, ◌∙◌, false, List, [], ◌∷◌, ◌++◌, arith, length, take, some, min,
}
use rockos.Tty.{TtyState, ReadResult, ok, err}
use rockos.Tty
use rockos.Tty.Invariant.{IsValid}
use rockos.Tty.Reading.{read_progress, read_lem, bytes, pending}
use rockos.Fs.{after_attempt, Reading, returned, finished}

-- One attempt: there is no line and the state stays, or bytes come off the front of the lines.
pub data Attempt (s : TtyState) (len : ℕ) : Type 0 where
  no_line : s.ready_lines ≡ [] → Tty.read s len false ≡ (ok [], s) → Attempt s len
  took :
      (bs : List ℕ) (s' : TtyState)
      → Tty.read s len false ≡ (ok bs, s')
      → 0 < length bs
      → length bs ≤ len
      → pending s ≡ bs ++ pending s'
      → Attempt s len

abbrev with_lines : TtyState → ReadResult × List (List ℕ) → ReadResult × TtyState
with_lines s (result, ready) = (result, record s { ready_lines = ready })

pub attempt :
    (s : TtyState) (len : ℕ) (lines : List (List ℕ))
    → s.ready_lines ≡ lines
    → IsValid s
    → 0 < len
    → Attempt s len
unfolding Tty.read Tty.take_line
attempt s len [] e v pos = no_line e (
    ap (λ l. with_lines s (Tty.take_line l len false)) e
    ∙ ap (λ l. (ok [], record s { ready_lines = l })) (sym e))
attempt s len (line ∷ rest) e v pos =
    let out = Tty.read s len false in
    let copied : out.0 ≡ ok (take (min (length line) len) line) =
      ap (λ l. (Tty.take_line l len false).0) e in
    let (stream, fits, valid) = read_lem s len false v in
    took (bytes out.0) out.1 (ap (λ r. (r, out.1)) (copied ∙ ap (λ r. ok (bytes r)) (sym copied)))
      (read_progress s len false v pos (rw e (omega arith))) fits stream

finished-ok : (bs : List ℕ) → 0 < length bs → finished (ok bs) ≡ some (returned (length bs) bs)
unfolding finished
finished-ok [] pos = absurd (omega arith)
finished-ok (b ∷ bs) pos = refl

pub after_attempt-took :
    (bs : List ℕ) (s : TtyState) (more : TtyState → Reading × TtyState)
    → 0 < length bs
    → after_attempt (ok bs, s) more ≡ (returned (length bs) bs, s)
unfolding after_attempt
after_attempt-took bs s more pos = rw (finished-ok bs pos, after_attempt) refl
