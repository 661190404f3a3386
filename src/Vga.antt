-- ===== src/Vga.antt =====
-- The text screen of src/vga.rs: a cursor and 2000 cells, each a character and a colour.
pub mod Cursor
pub mod Printing
mod Tests
use rockos.Prelude.{
  ℕ, ◌+◌, ◌*◌, Bool, true, false, List, [], ◌∷◌, set, replicate, leb, ◌==◌, if◌then◌else◌,
}

pub record VgaWriter : Type 0 where
  pub col : ℕ
  pub row : ℕ
  pub color : ℕ
  pub buffer : List (ℕ × ℕ)

abbrev pub new : List (ℕ × ℕ) → VgaWriter
new buffer = record { col = 0; row = 0; color = 0x0f; buffer = buffer }

-- The screen that `init` leaves.
abbrev pub init : VgaWriter
init = new (replicate 2000 (b' ', 0x1f))

unfoldable pub new_line : VgaWriter → VgaWriter
new_line w = record w { col = 0; row = if leb 25 (w.row + 1) then 0 else w.row + 1 }

-- A byte for a cell. The source panics where the index lies outside the buffer; here the buffer
-- then stays as it is.
unfoldable pub put : VgaWriter → ℕ → VgaWriter
put w byte = record w {
  buffer = set w.buffer (w.row * 80 + w.col) (byte, w.color);
  col = w.col + 1;
}

unfoldable pub write_byte : VgaWriter → ℕ → VgaWriter
unfolding new_line put
write_byte w byte =
    if byte == 0x0a then new_line w else put (if leb 80 w.col then new_line w else w) byte

unfoldable pub write_str : VgaWriter → List ℕ → VgaWriter
write_str w [] = w
write_str w (byte ∷ s) = write_str (write_byte w byte) s
