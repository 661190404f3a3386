-- ===== src/Tty/Tests.antt =====
-- The terminal at small inputs.
use rockos.Prelude.{◌≡◌, refl, ◌≤◌, true, some, [], ◌∷◌, ◌++◌, arith, length}
use rockos.Keyboard.Layout.{scancode_to_char}
use rockos.Tty.{
  feed_all, TtyState, new, read, feed_scancode, encode_utf8, push_bytes, pop_back, feed_char,
  shifted_char, key_up, key_down,
}
use rockos.Tty.Invariant.{IsValid, feed_scancode-IsValid}
use rockos.Tty.Reading.{bytes, pending, read_lem}
use rockos.Tty.Typing.{IsIdle, Types, TypesAll, feed_all-line}

program : Unit {0}
unfolding feed_all feed_scancode key_up key_down feed_char encode_utf8 push_bytes pop_back
    shifted_char scancode_to_char read
program = tt

-- "hi" with the left shift key down over the first letter, Enter.
typed_line :
    (feed_all new (0x2a ∷ 0x23 ∷ 0xaa ∷ 0x17 ∷ 0x1c ∷ [])).ready_lines
    ≡ (b'H' ∷ b'i' ∷ 0x0a ∷ []) ∷ []
unfolding program
typed_line = refl

-- The second of two prefix bytes ends the prefix.
double_prefix : (feed_all new (0xe0 ∷ 0xe0 ∷ 0x1e ∷ [])).line_edit ≡ b'a' ∷ []
unfolding program
double_prefix = refl

-- Shift leaves the semicolon as it is.
shifted_semicolon : shifted_char 0x27 ≡ some b';'
unfolding program
shifted_semicolon = refl

abbrev one_line : TtyState
one_line = record new { ready_lines = (b'h' ∷ b'i' ∷ 0x0a ∷ []) ∷ [] }

one_line-IsValid : IsValid one_line
one_line-IsValid = record {
  text = tt;
  room = omega arith;
  lines = ((b'h' ∷ b'i' ∷ [], refl, omega arith, omega arith), tt);
  few = omega arith;
}

abbrev idle : IsIdle new
idle = record { left_up = refl; right_up = refl; plain = refl }

h_key : Types 0x23 b'h'
unfolding scancode_to_char
h_key = record { makes = refl; above = omega arith; below = omega arith }

i_key : Types 0x17 b'i'
unfolding scancode_to_char
i_key = record { makes = refl; above = omega arith; below = omega arith }

typed_hi : TypesAll (0x23 ∷ 0x17 ∷ []) (b'h' ∷ b'i' ∷ [])
typed_hi = TypesAll.cons h_key (TypesAll.cons i_key TypesAll.nil)

feed_scancode-IsValid_example : IsValid (feed_scancode one_line 0x1c)
feed_scancode-IsValid_example = feed_scancode-IsValid one_line 0x1c (omega arith) one_line-IsValid

read_lem_example :
    let (result, s) = read one_line 2 true in
    (pending one_line ≡ bytes result ++ pending s) × (length (bytes result) ≤ 2) × IsValid s
read_lem_example = read_lem one_line 2 true one_line-IsValid

feed_all-line_example :
    feed_scancode (feed_all new (0x23 ∷ 0x17 ∷ [])) 0x1c
    ≡ record new { ready_lines = [] ++ (b'h' ∷ b'i' ∷ 0x0a ∷ []) ∷ [] }
feed_all-line_example = feed_all-line new typed_hi idle refl (omega arith) (omega arith)
