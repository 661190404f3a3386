-- ===== src/Vga/Tests.antt =====
-- The screen after start-up.
use rockos.Prelude.{ℕ, ◌≡◌, refl, List, [], ◌∷◌, arith}
use rockos.Vga.{init, write_byte, write_str}
use rockos.Vga.Cursor.{init-IsValid}
use rockos.Vga.Printing.{Printed, write_str-Printed}

abbrev ok : List ℕ
ok = b'o' ∷ b'k' ∷ []

at_last_row : (write_byte (record init { row = 24 }) 10).row ≡ 0
unfolding write_byte
at_last_row = refl

write_str-Printed_example : Printed init ok (write_str init ok)
write_str-Printed_example =
    write_str-Printed init ok init-IsValid ((λ e. omega arith), ((λ e. omega arith), tt))
      (omega arith)
