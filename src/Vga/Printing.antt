-- ===== src/Vga/Printing.antt =====
-- What printing puts on the screen.
use rockos.Prelude.{
  ℕ, suc, ◌+◌, ◌*◌, ◌-◌, ◌≤◌, ◌<◌, ◌≡◌, ◌≢◌, ◌∙◌, refl, sym, ap, ap₂, subst, ◌&&◌, List, [], ◌∷◌,
  arith, length, leb, ltb, get_or, ◌==◌, if◌then◌else◌, All, get_or-set_self, get_or-set_ne,
  Bool-cases, inl, inr,
}
use rockos.Vga.{VgaWriter, put, write_byte, write_str}
use rockos.Vga.Cursor.{IsValid, put-IsValid}

abbrev pub blank : ℕ × ℕ
blank = (b' ', 0x1f)

abbrev pub cursor : VgaWriter → ℕ
cursor w = w.row * 80 + w.col

put_cells :
    (w : VgaWriter) (byte i : ℕ)
    → IsValid w
    → w.col < 80
    → get_or (put w byte).buffer i blank
      ≡ (if i == cursor w then (byte, w.color) else get_or w.buffer i blank)
unfolding put
put_cells w byte i v h = ground (
  arith,
  get_or-set_self w.buffer (cursor w) (byte, w.color) blank (omega (arith, v.row_in, v.size)),
  get_or-set_ne w.buffer (cursor w) i (byte, w.color) blank,
)

write_byte-put :
    (w : VgaWriter) (byte : ℕ) → byte ≢ 10 → w.col < 80 → write_byte w byte ≡ put w byte
unfolding write_byte
write_byte-put w byte h room = ground arith

get_or-later :
    (byte : ℕ) (s : List ℕ) (i c : ℕ)
    → c < i
    → get_or (byte ∷ s) (i - c) 0 ≡ get_or s (i - (c + 1)) 0
get_or-later byte s i c h =
    let e : i - c ≡ suc (i - (c + 1)) = omega arith in ap (λ k. get_or (byte ∷ s) k 0) e

-- The text from the second byte on lies behind the first.
spread :
    (byte : ℕ) (s : List ℕ) (i c color : ℕ) (old : ℕ × ℕ)
    → (if leb (c + 1) i && ltb i (c + 1 + length s)
        then (get_or s (i - (c + 1)) 0, color)
        else if i == c
        then (byte, color)
        else old)
      ≡ (if leb c i && ltb i (c + length (byte ∷ s))
          then (get_or (byte ∷ s) (i - c) 0, color)
          else old)
spread byte s i c color old = elim (Bool-cases (i == c)) [
  | inl first ↦ let e : i ≡ c = ground arith in ground arith
  | inr later ↦ ground (arith, get_or-later byte s i c)
]

put_room :
    (w : VgaWriter) (byte : ℕ) (s : List ℕ)
    → w.col + length (byte ∷ s) ≤ 80
    → (put w byte).col + length s ≤ 80
unfolding put
put_room w byte s h = omega arith

-- A text is on one line of the screen: its bytes are in the cells from the old cursor on, in the
-- colour of the writer; no other cell has changed; the cursor has moved by the length of the text.
pub record Printed (w : VgaWriter) (s : List ℕ) (w' : VgaWriter) : Type 0 where
  pub moved : cursor w' ≡ cursor w + length s
  pub same_row : w'.row ≡ w.row
  pub same_color : w'.color ≡ w.color
  pub cells :
      (i : ℕ)
      → get_or w'.buffer i blank ≡ (
          if leb (cursor w) i && ltb i (cursor w + length s)
          then (get_or s (i - cursor w) 0, w.color)
          else get_or w.buffer i blank)

put-Printed :
    (w : VgaWriter) (byte : ℕ) (s : List ℕ) (w' : VgaWriter)
    → IsValid w
    → w.col < 80
    → Printed (put w byte) s w'
    → Printed w (byte ∷ s) w'
unfolding put
put-Printed w byte s w' v room p = record {
  moved = omega (arith, p.moved);
  same_row = p.same_row;
  same_color = p.same_color;
  cells = λ i.
      p.cells i
      ∙ ap₂ (λ c o. if leb c i && ltb i (c + length s) then (get_or s (i - c) 0, w.color) else o)
          (omega arith) (put_cells w byte i v room)
      ∙ spread byte s i (cursor w) w.color (get_or w.buffer i blank);
}

-- Printing a text without a newline that fits the rest of the line puts its bytes into the cells
-- from the cursor on, in the colour of the writer, touches no other cell, and moves the cursor by
-- its length.
pub write_str-Printed :
    (w : VgaWriter) (s : List ℕ)
    → IsValid w
    → All (λ byte. byte ≢ 10) s
    → w.col + length s ≤ 80
    → Printed w s (write_str w s)
unfolding write_str
write_str-Printed w [] v plain room = record {
  moved = omega arith;
  same_row = refl;
  same_color = refl;
  cells = λ i. ground arith;
}
write_str-Printed w (byte ∷ s) v plain room =
    let w' = put w byte in
    subst (λ x. Printed w (byte ∷ s) (write_str x s))
      (sym (write_byte-put w byte plain.0 (omega arith)))
      (put-Printed w byte s (write_str w' s) v (omega arith) (
        write_str-Printed w' s (put-IsValid w byte (omega arith) v) plain.1
          (put_room w byte s room)))
