-- ===== src/Tty/Reading.antt =====
-- What `read` of src/tty.rs takes from the finished lines.
use mathlib.Core.List.{append_assoc, flatten}
use rockos.Prelude.{
  ℕ, zero, suc, ◌≤◌, ◌<◌, ◌≡◌, refl, sym, ap, ◌∙◌, Bool, true, false, List, [], ◌∷◌, ◌++◌, arith,
  length, take, drop, ltb, length-append, length-take, length-drop, take-append-drop, take_all, All,
  Bool-cases, inl, inr, min, ltb→lt,
}
use rockos.Tty.{TtyState, ReadResult, ok, err, read, take_line}
use rockos.Tty.Invariant.{IsValid, IsLine, IsText}

-- The bytes that a call returned.
abbrev pub bytes : ReadResult → List ℕ
bytes (ok l) = l
bytes (err e) = []

abbrev pub pending : TtyState → List ℕ
pending s = flatten s.ready_lines

drop-All : (n : ℕ) (l : List ℕ) → All IsText l → All IsText (drop n l)
drop-All zero l h = h
drop-All (suc n) [] h = h
drop-All (suc n) (x ∷ l) h = drop-All n l h.1

drop-append : (n : ℕ) (l m : List ℕ) → n ≤ length l → drop n (l ++ m) ≡ drop n l ++ m
drop-append zero l m h = refl
drop-append (suc n) [] m h = absurd (omega arith)
drop-append (suc n) (x ∷ l) m h = drop-append n l m (omega arith)

drop-IsLine : (n : ℕ) (l : List ℕ) → n < length l → IsLine l → IsLine (drop n l)
drop-IsLine n l h (body, e, text, room) =
    let fits : n ≤ length body = omega (arith, ap length e, length-append body (10 ∷ [])) in
    (
      drop n body,
      ap (drop n) e ∙ drop-append n body (10 ∷ []) fits,
      drop-All n body text,
      omega (arith, length-drop n body),
    )

IsLine-pos : (l : List ℕ) → IsLine l → 0 < length l
IsLine-pos l (body, e, text, room) = omega (arith, ap length e, length-append body (10 ∷ []))

-- A line goes out whole or in parts.
record Took (lines : List (List ℕ)) (dst_len : ℕ) (out : ReadResult × List (List ℕ)) : Type 0 where
  fits : length (bytes out.0) ≤ dst_len
  stream : flatten lines ≡ bytes out.0 ++ flatten out.1
  lines_left : All IsLine out.1
  fewer : length out.1 ≤ length lines
  progress : 0 < dst_len → 0 < length lines → 0 < length (bytes out.0)

take_line-Took :
    (lines : List (List ℕ)) (dst_len : ℕ) (nonblock : Bool)
    → All IsLine lines
    → Took lines dst_len (take_line lines dst_len nonblock)
unfolding take_line flatten
take_line-Took [] dst_len true h = record {
  fits = omega arith;
  stream = refl;
  lines_left = tt;
  fewer = omega arith;
  progress = λ p q. q;
}
take_line-Took [] dst_len false h = record {
  fits = omega arith;
  stream = refl;
  lines_left = tt;
  fewer = omega arith;
  progress = λ p q. q;
}
take_line-Took (line ∷ rest) dst_len nonblock h =
    let n = min (length line) dst_len in
    elim (Bool-cases (ltb n (length line))) [
      | inl part ↦ rw part (record {
        fits = omega (arith, length-take n line);
        stream =
            ap (λ l. l ++ flatten rest) (sym (take-append-drop n line))
            ∙ append_assoc (take n line) (drop n line) (flatten rest);
        lines_left = (drop-IsLine n line (ltb→lt n (length line) part) h.0, h.1);
        fewer = omega arith;
        progress = λ p q. omega (arith, length-take n line, IsLine-pos line h.0);
      })
      | inr whole ↦
          let all : length line ≤ n = ground arith in
          rw whole (record {
            fits = omega (arith, length-take n line);
            stream = ap (λ l. l ++ flatten rest) (sym (take_all n line all));
            lines_left = h.1;
            fewer = omega arith;
            progress = λ p q. omega (arith, length-take n line, IsLine-pos line h.0);
          })
    ]

-- Reading takes the returned bytes off the front of the finished lines and loses nothing; it
-- returns at most as many as the buffer holds; and the state stays well formed.
pub read_lem :
    (s : TtyState) (dst_len : ℕ) (nonblock : Bool)
    → IsValid s
    → let (result, s') = read s dst_len nonblock in
      (pending s ≡ bytes result ++ pending s') × (length (bytes result) ≤ dst_len) × IsValid s'
unfolding read
read_lem s dst_len nonblock v =
    let t = take_line-Took s.ready_lines dst_len nonblock v.lines in
    (
      t.stream,
      t.fits,
      record { text = v.text; room = v.room; lines = t.lines_left; few = omega (arith, t.fewer) },
    )

-- With a line ready and a buffer that is not empty, reading returns at least one byte.
pub read_progress :
    (s : TtyState) (dst_len : ℕ) (nonblock : Bool)
    → IsValid s
    → 0 < dst_len
    → 0 < length s.ready_lines
    → 0 < length (bytes (read s dst_len nonblock).0)
unfolding read
read_progress s dst_len nonblock v room ready =
    (take_line-Took s.ready_lines dst_len nonblock v.lines).progress room ready

min_zero : (n : ℕ) → min n 0 ≡ 0
min_zero n = omega arith

take_line_empty_buffer :
    (lines : List (List ℕ)) → All IsLine lines → take_line lines 0 false ≡ (ok [], lines)
unfolding take_line
take_line_empty_buffer [] h = refl
take_line_empty_buffer (line ∷ rest) h = ground (arith, IsLine-pos line h.0, min_zero (length line))

-- With an empty buffer the blocking form reports no data and leaves the state as it was, also where
-- a line is ready.
pub read_empty_buffer : (s : TtyState) → IsValid s → read s 0 false ≡ (ok [], s)
unfolding read
read_empty_buffer s v = rw (take_line_empty_buffer s.ready_lines v.lines)
