-- ===== src/Serial/Tests.antt =====
-- A number in hexadecimal.
use rockos.Prelude.{◌≤◌, ◌≡◌, refl, some, none, [], ◌∷◌, arith, length}
use rockos.Serial.{digit, hex_loop, debug_hex_u64}
use rockos.Serial.Hex.{from_digit, from_hex, parse_digits, parse_hex, debug_hex_u64_lem}

printed : debug_hex_u64 0xbeef ≡ b'0' ∷ b'x' ∷ b'b' ∷ b'e' ∷ b'e' ∷ b'f' ∷ []
unfolding debug_hex_u64 hex_loop digit
printed = refl

-- Another prefix, no digits, and a byte that is no digit.
no_number :
    (parse_hex (b'?' ∷ b'!' ∷ b'b' ∷ []) ≡ none)
    × (parse_hex (b'0' ∷ b'x' ∷ []) ≡ none)
    × (parse_hex (b'0' ∷ b'x' ∷ b':' ∷ []) ≡ none)
unfolding parse_hex parse_digits from_hex from_digit
no_number = (refl, refl, refl)

debug_hex_u64_lem_example :
    (parse_hex (debug_hex_u64 0xbeef) ≡ some 0xbeef) × (length (debug_hex_u64 0xbeef) ≤ 18)
debug_hex_u64_lem_example = debug_hex_u64_lem 0xbeef (omega arith)
