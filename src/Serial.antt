-- ===== src/Serial.antt =====
-- The hexadecimal printer of src/serial.rs. What is sent to the port is a list of bytes.
pub mod Hex
mod Tests
use rockos.Prelude.{
  ℕ, zero, suc, ◌/◌, ◌%◌, Bool, true, false, List, [], ◌∷◌, ◌++◌, get_or, ◌==◌, if◌then◌else◌,
}

abbrev pub hex : List ℕ
hex =
    b'0' ∷ b'1' ∷ b'2' ∷ b'3' ∷ b'4' ∷ b'5' ∷ b'6' ∷ b'7' ∷ b'8' ∷ b'9' ∷ b'a' ∷ b'b' ∷ b'c' ∷ b'd'
    ∷ b'e' ∷ b'f' ∷ []

unfoldable pub digit : ℕ → ℕ
digit d = get_or hex d 0

-- The loop that fills `buf`, of which `room` bytes are left: the byte written last stands first, as
-- the second loop sends it. `v & 0xf` and `v >>= 4` are a remainder and a quotient.
unfoldable pub hex_loop : (room v : ℕ) → List ℕ → List ℕ
unfolding digit
hex_loop zero v buf = buf
hex_loop (suc room) v buf =
    let rest = hex_loop room (v / 16) (digit (v % 16) ∷ buf) in if v == 0 then buf else rest

-- The bytes that `debug_hex_u64` sends.
unfoldable pub debug_hex_u64 : ℕ → List ℕ
debug_hex_u64 n = b'0' ∷ b'x' ∷ (if n == 0 then b'0' ∷ [] else hex_loop 16 n [])
