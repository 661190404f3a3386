-- ===== src/Tty/Table.antt =====
-- What the keyboard layout and its shifted form can yield, by evaluation over all scan codes.
use rockos.Prelude.{
  ℕ, ◌<◌, ◌≡◌, refl, Bool, true, ◌&&◌, Option, none, some, arith, ltb, leb, ◌≤◌, holds_below,
  holds_below_sound, if◌then◌else◌,
}
use rockos.Keyboard.Layout.{scancode_to_char}
use rockos.Tty.{shifted_char}

abbrev ascii_or_none : Option ℕ → Bool
ascii_or_none none = true
ascii_or_none (some c) = ltb c 128

ascii_or_none-some : (o : Option ℕ) (c : ℕ) → ascii_or_none o ≡ true → o ≡ some c → c < 128
ascii_or_none-some o c h e = ground arith

ascii_table :
    holds_below 256 (λ k. ascii_or_none (scancode_to_char k) && ascii_or_none (shifted_char k))
    ≡ true
unfolding holds_below scancode_to_char shifted_char
ascii_table = refl

-- With or without shift a key yields an ASCII character.
pub char-lt :
    (down : Bool) (code c : ℕ)
    → code < 256
    → (if down then shifted_char code else scancode_to_char code) ≡ some c
    → c < 128
char-lt down code c h e = ground (
  arith,
  holds_below_sound 256 (λ k. ascii_or_none (scancode_to_char k) && ascii_or_none (shifted_char k))
      code ascii_table h,
  ascii_or_none-some (scancode_to_char code) c,
  ascii_or_none-some (shifted_char code) c,
)

-- The two shift keys have no character of their own.
pub shift_keys_no_char : (scancode_to_char 0x2a ≡ none) × (scancode_to_char 0x36 ≡ none)
unfolding scancode_to_char
shift_keys_no_char = (refl, refl)

-- Nor has a break code.
pub break_code_no_char : (code : ℕ) → 0x80 ≤ code → scancode_to_char code ≡ none
unfolding scancode_to_char
break_code_no_char code h = let high : leb 0x80 code ≡ true = ground arith in rw high
