-- ===== src/Keyboard/Layout.antt =====
-- `scancode_to_char` of src/keyboard.rs. A character is its code point.
use rockos.Prelude.{ℕ, ◌||◌, Option, none, some, List, [], ◌∷◌, leb, ◌==◌, if◌then◌else◌}

-- The arm of a `match` on a number: the first pair with this key.
unfoldable pub arm : ℕ → List (ℕ × ℕ) → Option ℕ
arm k [] = none
arm k ((key, value) ∷ arms) = if k == key then some value else arm k arms

-- The arms that return a character, in the order of the source. All others return none.
abbrev pub unshifted : List (ℕ × ℕ)
unshifted =
    (0x01, 0x1b)
    ∷ (0x0e, 0x8)
    ∷ (0x0f, 0x9)
    ∷ (0x1c, 0xa)
    ∷ (0x39, 0x20)
    ∷ (0x02, b'1')
    ∷ (0x03, b'2')
    ∷ (0x04, b'3')
    ∷ (0x05, b'4')
    ∷ (0x06, b'5')
    ∷ (0x07, b'6')
    ∷ (0x08, b'7')
    ∷ (0x09, b'8')
    ∷ (0x0a, b'9')
    ∷ (0x0b, b'0')
    ∷ (0x0c, b'-')
    ∷ (0x0d, b'=')
    ∷ (0x10, b'q')
    ∷ (0x11, b'w')
    ∷ (0x12, b'e')
    ∷ (0x13, b'r')
    ∷ (0x14, b't')
    ∷ (0x15, b'y')
    ∷ (0x16, b'u')
    ∷ (0x17, b'i')
    ∷ (0x18, b'o')
    ∷ (0x19, b'p')
    ∷ (0x1a, b'[')
    ∷ (0x1b, b']')
    ∷ (0x1e, b'a')
    ∷ (0x1f, b's')
    ∷ (0x20, b'd')
    ∷ (0x21, b'f')
    ∷ (0x22, b'g')
    ∷ (0x23, b'h')
    ∷ (0x24, b'j')
    ∷ (0x25, b'k')
    ∷ (0x26, b'l')
    ∷ (0x27, b';')
    ∷ (0x28, 0x27)
    ∷ (0x29, b'`')
    ∷ (0x2b, 0x5c)
    ∷ (0x2c, b'z')
    ∷ (0x2d, b'x')
    ∷ (0x2e, b'c')
    ∷ (0x2f, b'v')
    ∷ (0x30, b'b')
    ∷ (0x31, b'n')
    ∷ (0x32, b'm')
    ∷ (0x33, b',')
    ∷ (0x34, b'.')
    ∷ (0x35, b'/')
    ∷ (0x37, b'*')
    ∷ (0x4a, b'-')
    ∷ (0x4e, b'+')
    ∷ (0x47, b'7')
    ∷ (0x48, b'8')
    ∷ (0x49, b'9')
    ∷ (0x4b, b'4')
    ∷ (0x4c, b'5')
    ∷ (0x4d, b'6')
    ∷ (0x4f, b'1')
    ∷ (0x50, b'2')
    ∷ (0x51, b'3')
    ∷ (0x52, b'0')
    ∷ (0x53, b'.')
    ∷ []

unfoldable pub scancode_to_char : ℕ → Option ℕ
unfolding arm
scancode_to_char scancode =
    if leb 0x80 scancode || scancode == 0xe0 then none else arm scancode unshifted
