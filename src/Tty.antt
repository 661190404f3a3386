-- ===== src/Tty.antt =====
-- The cooked terminal of src/tty.rs: scan codes become characters, characters become lines, and
-- `read` hands lines out. A byte and a character are numbers; the `Mutex` around the state is gone,
-- each function takes the state and returns the new one.
pub mod Table
pub mod Invariant
pub mod Reading
pub mod Typing
mod Tests
use rockos.Prelude.{
  ℕ, ◌+◌, ◌-◌, ◌/◌, ◌%◌, Bool, true, false, not, ◌&&◌, ◌||◌, Option, none, some, List, [], ◌∷◌,
  ◌++◌, min, length, take, drop, ltb, leb, ◌==◌, if◌then◌else◌,
}
use rockos.Keyboard.Layout.{arm, scancode_to_char}

abbrev pub line_buf : ℕ
line_buf = 1024

abbrev pub max_ready_lines : ℕ
max_ready_lines = 128

pub record TtyState : Type 0 where
  pub shift_left : Bool
  pub shift_right : Bool
  pub e0_prefix : Bool
  pub line_edit : List ℕ
  pub ready_lines : List (List ℕ)

abbrev pub new : TtyState
new = record {
  shift_left = false;
  shift_right = false;
  e0_prefix = false;
  line_edit = [];
  ready_lines = [];
}

abbrev pub shift : TtyState → Bool
shift s = s.shift_left || s.shift_right

abbrev pub to_ascii_uppercase : ℕ → ℕ
to_ascii_uppercase c = if leb b'a' c && leb c b'z' then c - 32 else c

abbrev pub shifted : List (ℕ × ℕ)
shifted =
    (0x02, b'!')
    ∷ (0x03, b'@')
    ∷ (0x04, b'#')
    ∷ (0x05, b'$')
    ∷ (0x06, b'%')
    ∷ (0x07, b'^')
    ∷ (0x08, b'&')
    ∷ (0x09, b'*')
    ∷ (0x0a, b'(')
    ∷ (0x0b, b')')
    ∷ (0x0c, b'_')
    ∷ (0x0d, b'+')
    ∷ (0x29, b'~')
    ∷ (0x2b, b'|')
    ∷ (0x33, b'<')
    ∷ (0x34, b'>')
    ∷ (0x35, b'?')
    ∷ []

unfoldable pub shifted_char : ℕ → Option ℕ
unfolding arm scancode_to_char
shifted_char code = elim (arm code shifted) [
  | some c ↦ some c
  | none ↦ elim (scancode_to_char code) [ some c ↦ some (to_ascii_uppercase c) | none ↦ none ]
]

-- `char::encode_utf8`.
unfoldable pub encode_utf8 : ℕ → List ℕ
encode_utf8 c =
    if ltb c 0x80
    then c ∷ []
    else if ltb c 0x800
    then (0xc0 + c / 64) ∷ (0x80 + c % 64) ∷ []
    else if ltb c 0x10000
    then (0xe0 + c / 4096) ∷ (0x80 + c / 64 % 64) ∷ (0x80 + c % 64) ∷ []
    else (0xf0 + c / 262144) ∷ (0x80 + c / 4096 % 64) ∷ (0x80 + c / 64 % 64) ∷ (0x80 + c % 64) ∷ []

-- The loop that appends the bytes of a character, each only while the line has room.
unfoldable pub push_bytes : List ℕ → List ℕ → List ℕ
push_bytes line [] = line
push_bytes line (b ∷ bs) =
    push_bytes (if ltb (length line) line_buf then line ++ b ∷ [] else line) bs

-- `Vec::pop`, its result dropped.
unfoldable pub pop_back : List ℕ → List ℕ
pop_back [] = []
pop_back (x ∷ []) = []
pop_back (x ∷ y ∷ l) = x ∷ pop_back (y ∷ l)

-- The last `match` of `feed_scancode`: Enter, an erasing key, or a character for the line.
unfoldable pub feed_char : TtyState → ℕ → TtyState
feed_char s c =
    if c == 0x0a || c == 0x0d
    then record s {
      line_edit = [];
      ready_lines =
          if ltb (length s.ready_lines) max_ready_lines
          then s.ready_lines ++ (s.line_edit ++ 0x0a ∷ []) ∷ []
          else s.ready_lines;
    }
    else if c == 0x08 || c == 0x7f
    then record s { line_edit = pop_back s.line_edit }
    else record s { line_edit = push_bytes s.line_edit (encode_utf8 c) }

-- A key with a make code below 0x80 goes up, or down.
unfoldable pub key_up : TtyState → ℕ → TtyState
key_up s mk =
    if mk == 0x2a
    then record s { shift_left = false }
    else if mk == 0x36
    then record s { shift_right = false }
    else s

unfoldable pub key_down : TtyState → ℕ → TtyState
key_down s code =
    if code == 0x2a
    then record s { shift_left = true }
    else if code == 0x36
    then record s { shift_right = true }
    else elim (if shift s then shifted_char code else scancode_to_char code) [
      | none ↦ s
      | some c ↦ feed_char s c
    ]

unfoldable pub feed_scancode : TtyState → ℕ → TtyState
feed_scancode s code =
    if s.e0_prefix
    then if code == 0xe0
      then record s { e0_prefix = not (code == 0xe0) }
      else record s { e0_prefix = false }
    else if code == 0xe0
    then record s { e0_prefix = true }
    else if leb 0x80 code
    then key_up s (code - 0x80)
    else key_down s code

-- The scan codes of several interrupts in turn.
unfoldable pub feed_all : TtyState → List ℕ → TtyState
feed_all s [] = s
feed_all s (code ∷ codes) = feed_all (feed_scancode s code) codes

-- `Ok` holds the bytes copied to the front of `dst`, whose number is returned; `Err` holds the error
-- number, negated in the source.
pub data ReadResult : Type 0 where
  ok : List ℕ → ReadResult
  err : ℕ → ReadResult

-- The body of `read` over the finished lines. `dst` enters by its length.
unfoldable pub take_line :
    List (List ℕ) → (dst_len : ℕ) → (nonblock : Bool) → ReadResult × List (List ℕ)
take_line [] dst_len nonblock = (if nonblock then err 11 else ok [], [])
take_line (line ∷ rest) dst_len nonblock =
    let n = min (length line) dst_len in
    (ok (take n line), if ltb n (length line) then drop n line ∷ rest else rest)

unfoldable pub read : TtyState → (dst_len : ℕ) → (nonblock : Bool) → ReadResult × TtyState
unfolding take_line
read s dst_len nonblock =
    let (result, ready) = take_line s.ready_lines dst_len nonblock in
    (result, record s { ready_lines = ready })
