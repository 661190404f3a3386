-- ===== src/Tty/Typing.antt =====
-- Whole strokes of keys against the line that they should make.
use mathlib.Core.List.{append_assoc, append-nil}
use rockos.Prelude.{
  ℕ, ◌+◌, ◌≤◌, ◌<◌, ◌≡◌, refl, sym, ap, ◌∙◌, ◌≢◌, false, none, some, List, [], ◌∷◌, ◌++◌, arith,
  length, length-append, leb, Bool-cases, inl, inr,
}
use rockos.Keyboard.Layout.{scancode_to_char}
use rockos.Tty.{feed_all, TtyState, feed_char, pop_back, key_down, feed_scancode}
use rockos.Tty.Invariant.{push_bytes-ascii}
use rockos.Tty.Table.{break_code_no_char, shift_keys_no_char}

-- Neither shift key is down and no prefix is pending.
pub record IsIdle (s : TtyState) : Type 0 where
  pub left_up : s.shift_left ≡ false
  pub right_up : s.shift_right ≡ false
  pub plain : s.e0_prefix ≡ false

-- The key with this make code types this printable character.
pub record Types (code c : ℕ) : Type 0 where
  pub makes : scancode_to_char code ≡ some c
  pub above : 31 < c
  pub below : c < 127

pub data TypesAll : List ℕ → List ℕ → Type 0 where
  nil : TypesAll [] []
  cons :
      {code c : ℕ} {codes cs : List ℕ}
      → Types code c
      → TypesAll codes cs
      → TypesAll (code ∷ codes) (c ∷ cs)

some-ne-none : {c : ℕ} → some c ≢ none
some-ne-none e = cc

-- A code that makes a character is no break code, no prefix and no shift key.
Types-code : (code c : ℕ) → Types code c → (code < 0x80) × (code ≢ 0x2a) × (code ≢ 0x36)
Types-code code c t = (
  elim (Bool-cases (leb 0x80 code)) [
    | inl high ↦ absurd (some-ne-none (sym t.makes ∙ break_code_no_char code (ground arith)))
    | inr low ↦ ground arith
  ],
  (λ e. some-ne-none (sym t.makes ∙ ap scancode_to_char e ∙ shift_keys_no_char.0)),
  (λ e. some-ne-none (sym t.makes ∙ ap scancode_to_char e ∙ shift_keys_no_char.1)),
)

feed_char-printable :
    (s : TtyState) (c : ℕ)
    → 31 < c
    → c < 127
    → length s.line_edit < 1024
    → feed_char s c ≡ record s { line_edit = s.line_edit ++ c ∷ [] }
unfolding feed_char
feed_char-printable s c lo hi room = ground (arith, push_bytes-ascii s.line_edit c (omega arith))

-- One key.
feed_scancode-Types :
    (s : TtyState) (code c : ℕ)
    → IsIdle s
    → Types code c
    → length s.line_edit < 1024
    → feed_scancode s code ≡ record s { line_edit = s.line_edit ++ c ∷ [] }
unfolding feed_scancode key_down
feed_scancode-Types s code c idle t room =
    ground (arith, Types-code code c t, feed_char-printable s c t.above t.below room)

-- Typing printable keys on an idle terminal with room appends their characters in order.
feed_all-TypesAll :
    (s : TtyState) {codes cs : List ℕ}
    → TypesAll codes cs
    → IsIdle s
    → length s.line_edit + length cs ≤ 1024
    → feed_all s codes ≡ record s { line_edit = s.line_edit ++ cs }
unfolding feed_all
feed_all-TypesAll s nil idle room =
    ap (λ l. record s { line_edit = l }) (sym (append-nil s.line_edit))
feed_all-TypesAll s (cons {code = code} {c = c} {codes = codes} {cs = cs} t ts) idle room =
    let typed : TtyState = record s { line_edit = s.line_edit ++ c ∷ [] } in
    ap (λ u. feed_all u codes) (feed_scancode-Types s code c idle t (omega arith))
    ∙ feed_all-TypesAll typed ts
        (record { left_up = idle.left_up; right_up = idle.right_up; plain = idle.plain })
        (omega (arith, length-append s.line_edit (c ∷ [])))
    ∙ ap (λ l. record s { line_edit = l }) (append_assoc s.line_edit (c ∷ []) cs)

enter_key : scancode_to_char 0x1c ≡ some 0x0a
unfolding scancode_to_char
enter_key = refl

backspace_key : scancode_to_char 0x0e ≡ some 0x08
unfolding scancode_to_char
backspace_key = refl

feed_scancode-enter :
    (s : TtyState)
    → IsIdle s
    → length s.ready_lines < 128
    → feed_scancode s 0x1c
      ≡ record s { line_edit = []; ready_lines = s.ready_lines ++ (s.line_edit ++ 0x0a ∷ []) ∷ [] }
unfolding feed_scancode key_down feed_char
feed_scancode-enter s idle free = ground (arith, enter_key)

-- An idle terminal with an empty line and a free place for a line turns the keys of at most 1024
-- printable characters and Enter into one more finished line, which is those characters and a
-- newline; nothing else changes.
pub feed_all-line :
    (s : TtyState) {codes cs : List ℕ}
    → TypesAll codes cs
    → IsIdle s
    → s.line_edit ≡ []
    → length cs ≤ 1024
    → length s.ready_lines < 128
    → feed_scancode (feed_all s codes) 0x1c
      ≡ record s { ready_lines = s.ready_lines ++ (cs ++ 0x0a ∷ []) ∷ [] }
feed_all-line s {codes} {cs} ts idle empty room free =
    let typed : TtyState = record s { line_edit = s.line_edit ++ cs } in
    ap (λ u. feed_scancode u 0x1c) (feed_all-TypesAll s ts idle (omega (arith, ap length empty)))
    ∙ feed_scancode-enter typed
        (record { left_up = idle.left_up; right_up = idle.right_up; plain = idle.plain }) free
    ∙ ground arith

pop_back-append : (l : List ℕ) (c : ℕ) → pop_back (l ++ c ∷ []) ≡ l
unfolding pop_back
pop_back-append [] c = refl
pop_back-append (x ∷ []) c = refl
pop_back-append (x ∷ y ∷ l) c = ap (λ t. x ∷ t) (pop_back-append (y ∷ l) c)

feed_scancode-backspace :
    (s : TtyState) → IsIdle s → feed_scancode s 0x0e ≡ record s { line_edit = pop_back s.line_edit }
unfolding feed_scancode key_down feed_char
feed_scancode-backspace s idle = ground (arith, backspace_key)

-- On an idle terminal with room, Backspace behind a key that types a printable character brings the
-- state back to what it was before that key.
pub backspace_undoes :
    (s : TtyState) (code c : ℕ)
    → IsIdle s
    → Types code c
    → length s.line_edit < 1024
    → feed_scancode (feed_scancode s code) 0x0e ≡ s
backspace_undoes s code c idle t room =
    let typed : TtyState = record s { line_edit = s.line_edit ++ c ∷ [] } in
    ap (λ u. feed_scancode u 0x0e) (feed_scancode-Types s code c idle t room)
    ∙ feed_scancode-backspace typed
        (record { left_up = idle.left_up; right_up = idle.right_up; plain = idle.plain })
    ∙ ap (λ l. record s { line_edit = l }) (pop_back-append s.line_edit c)
