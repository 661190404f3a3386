-- ===== src/Tty/Invariant.antt =====
-- What every state of the terminal keeps: lines of bounded length, each ended by its only newline.
use rockos.Prelude.{
  ℕ, ◌||◌, ◌-◌, ◌≤◌, ◌<◌, ◌≡◌, refl, ◌≢◌, List, [], ◌∷◌, ◌++◌, arith, length, length-append, All,
  All-append, ltb, ◌==◌, if◌then◌else◌, Bool-cases, inl, inr, Option-cases,
}
use rockos.Keyboard.Layout.{scancode_to_char}
use rockos.Tty.{
  TtyState, new, shift, shifted_char, encode_utf8, push_bytes, pop_back, feed_char, feed_scancode,
  key_up, key_down,
}
use rockos.Tty.Table.{char-lt}

-- A byte of a line: ASCII, and no newline.
abbrev pub IsText : ℕ → Type 0
IsText b = (b < 128) × (b ≢ 10)

-- A finished line: at most 1024 bytes of text and a newline.
abbrev pub IsLine : List ℕ → Type 0
IsLine l = (body : List ℕ) × (l ≡ body ++ 10 ∷ []) × All IsText body × (length body ≤ 1024)

-- What is left of a finished line: text, then a newline.
pub record IsValid (s : TtyState) : Type 0 where
  pub text : All IsText s.line_edit
  pub room : length s.line_edit ≤ 1024
  pub lines : All IsLine s.ready_lines
  pub few : length s.ready_lines ≤ 128

pub new-IsValid : IsValid new
new-IsValid = omega arith

pub length-pop_back-le : (l : List ℕ) → length (pop_back l) ≤ length l
unfolding pop_back
length-pop_back-le [] = omega arith
length-pop_back-le (x ∷ []) = omega arith
length-pop_back-le (x ∷ y ∷ l) = omega (arith, length-pop_back-le (y ∷ l))

pop_back-All : (l : List ℕ) → All IsText l → All IsText (pop_back l)
unfolding pop_back
pop_back-All [] h = tt
pop_back-All (x ∷ []) h = tt
pop_back-All (x ∷ y ∷ l) h = (h.0, pop_back-All (y ∷ l) h.1)

-- An ASCII character is one byte, which joins the line if there is room.
pub push_bytes-ascii :
    (l : List ℕ) (c : ℕ)
    → c < 128
    → push_bytes l (encode_utf8 c) ≡ (if ltb (length l) 1024 then l ++ c ∷ [] else l)
unfolding push_bytes encode_utf8
push_bytes-ascii l c h = ground arith

module _ (s : TtyState) (v : IsValid s) where
  enter-lines : All IsLine (
      if ltb (length s.ready_lines) 128
      then s.ready_lines ++ (s.line_edit ++ 0x0a ∷ []) ∷ []
      else s.ready_lines)
  enter-lines = elim (Bool-cases (ltb (length s.ready_lines) 128)) [
    | inl free ↦ rw free (
        All-append IsLine s.ready_lines ((s.line_edit ++ 0x0a ∷ []) ∷ []) v.lines
          ((s.line_edit, refl, v.text, v.room), tt))
    | inr full ↦ rw full v.lines
  ]

  enter-few :
      length (
        if ltb (length s.ready_lines) 128
        then s.ready_lines ++ (s.line_edit ++ 0x0a ∷ []) ∷ []
        else s.ready_lines)
      ≤ 128
  enter-few = ground (arith, v.few, length-append s.ready_lines ((s.line_edit ++ 0x0a ∷ []) ∷ []))

  push-IsText :
      (c : ℕ)
      → IsText c
      → All IsText (if ltb (length s.line_edit) 1024 then s.line_edit ++ c ∷ [] else s.line_edit)
  push-IsText c t = elim (Bool-cases (ltb (length s.line_edit) 1024)) [
    | inl free ↦ rw free (All-append IsText s.line_edit (c ∷ []) v.text (t, tt))
    | inr full ↦ rw full v.text
  ]

  push-room :
      (c : ℕ)
      → length (if ltb (length s.line_edit) 1024 then s.line_edit ++ c ∷ [] else s.line_edit) ≤ 1024
  push-room c = ground (arith, v.room, length-append s.line_edit (c ∷ []))

  pub feed_char-IsValid : (c : ℕ) → c < 128 → IsValid (feed_char s c)
  unfolding feed_char
  feed_char-IsValid c h = elim (Bool-cases (c == 0x0a || c == 0x0d)) [
    | inl enter ↦
        rw enter (record { text = tt; room = omega arith; lines = enter-lines; few = enter-few })
    | inr other ↦ rw other elim (Bool-cases (c == 0x08 || c == 0x7f)) [
      | inl erase ↦ rw erase (record {
        text = pop_back-All s.line_edit v.text;
        room = omega (arith, length-pop_back-le s.line_edit);
        lines = v.lines;
        few = v.few;
      })
      | inr char ↦
          rw (char, push_bytes-ascii s.line_edit c h)
            (record {
              text = push-IsText c (h, ground arith);
              room = push-room c;
              lines = v.lines;
              few = v.few;
            })
    ]
  ]

key_up-IsValid : (s : TtyState) (mk : ℕ) → IsValid s → IsValid (key_up s mk)
unfolding key_up
key_up-IsValid s mk v = ground arith

key_down-IsValid : (s : TtyState) (code : ℕ) → code < 256 → IsValid s → IsValid (key_down s code)
unfolding key_down
key_down-IsValid s code h v =
    elim (Option-cases (if shift s then shifted_char code else scancode_to_char code)) [
      | inl nothing ↦ rw nothing (ground arith)
      | inr (c, e) ↦ rw e (ground (arith, feed_char-IsValid s v c (char-lt (shift s) code c h e)))
    ]

-- Feeding any byte to the terminal keeps its lines well formed and its two buffers within bounds.
pub feed_scancode-IsValid :
    (s : TtyState) (code : ℕ) → code < 256 → IsValid s → IsValid (feed_scancode s code)
unfolding feed_scancode
feed_scancode-IsValid s code h v =
    ground (arith, key_up-IsValid s (code - 0x80) v, key_down-IsValid s code h v)
