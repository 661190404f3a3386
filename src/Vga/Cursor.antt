-- ===== src/Vga/Cursor.antt =====
-- The cursor stays on the screen.
use rockos.Prelude.{
  ℕ, ◌+◌, ◌*◌, ◌≤◌, ◌<◌, ◌≡◌, List, [], ◌∷◌, arith, length, leb, if◌then◌else◌, Bool-cases, inl,
  inr, length-set, length-replicate,
}
use rockos.Vga.{VgaWriter, init, new_line, put, write_byte, write_str}

-- The column may be one past the last: the line is then full.
pub record IsValid (w : VgaWriter) : Type 0 where
  pub col_in : w.col ≤ 80
  pub row_in : w.row < 25
  pub size : length w.buffer ≡ 2000

pub init-IsValid : IsValid init
init-IsValid = record {
  col_in = omega arith;
  row_in = omega arith;
  size = length-replicate {A = ℕ × ℕ} 2000 (b' ', 0x1f);
}

pub new_line-IsValid : (w : VgaWriter) → IsValid w → IsValid (new_line w)
unfolding new_line
new_line-IsValid w v = record {
  col_in = omega arith;
  row_in = ground (arith, v.row_in);
  size = v.size;
}

pub put-IsValid : (w : VgaWriter) (byte : ℕ) → w.col < 80 → IsValid w → IsValid (put w byte)
unfolding put
put-IsValid w byte h v = record {
  col_in = omega arith;
  row_in = v.row_in;
  size = omega (arith, length-set w.buffer (w.row * 80 + w.col) (byte, w.color), v.size);
}

-- The cell that the next byte other than a newline goes to.
abbrev pub at_cell : VgaWriter → VgaWriter
at_cell w = if leb 80 w.col then new_line w else w

pub at_cell-IsValid : (w : VgaWriter) → IsValid w → IsValid (at_cell w) × ((at_cell w).col < 80)
unfolding new_line
at_cell-IsValid w v = elim (Bool-cases (leb 80 w.col)) [
  | inl full ↦ rw full (new_line-IsValid w v, omega arith)
  | inr room ↦ rw room (v, ground arith)
]

-- Every byte leaves the cursor on the screen and the screen at its size.
pub write_byte-IsValid : (w : VgaWriter) (byte : ℕ) → IsValid w → IsValid (write_byte w byte)
unfolding write_byte
write_byte-IsValid w byte v =
    let (valid, room) = at_cell-IsValid w v in
    ground (arith, new_line-IsValid w v, put-IsValid (at_cell w) byte room valid)

-- Text of any length and content leaves the cursor on the screen and the screen at its size.
pub write_str-IsValid : (w : VgaWriter) (s : List ℕ) → IsValid w → IsValid (write_str w s)
unfolding write_str
write_str-IsValid w [] v = v
write_str-IsValid w (byte ∷ s) v =
    write_str-IsValid (write_byte w byte) s (write_byte-IsValid w byte v)
