-- ===== src/Keyboard/Tests.antt =====
-- The keyboard ring, its interrupt and the layout at small inputs.
use rockos.Prelude.{
  ℕ, ◌≡◌, refl, List, [], ◌∷◌, true, none, some, arith, set, replicate, length-replicate,
  length-set, ◌∙◌,
}
use rockos.Keyboard.{ScancodeQueue, new, try_push, read_scancode}
use rockos.Keyboard.Fifo
use rockos.Keyboard.Irq.{Devices, handle_all, keys, Handled, handle_all-Handled}
use rockos.Tty
use rockos.Keyboard.Layout.{scancode_to_char}
use rockos.Keyboard.Ring.{IsValid, new-IsValid, contents, try_push_refines}

-- 8 at the last index of the buffer, then 9 round its end.
abbrev wrapped : ScancodeQueue
wrapped = record { buf = set (set (replicate 256 0) 255 8) 0 9; head = 255; tail = 1 }

wrapped-IsValid : IsValid wrapped
wrapped-IsValid = record {
  size =
      length-set {A = ℕ} (set (replicate 256 0) 255 8) 0 9
      ∙ (length-set {A = ℕ} (replicate 256 0) 255 8 ∙ length-replicate {A = ℕ} 256 0);
  head_in = omega arith;
  tail_in = omega arith;
}

pushed : (try_push wrapped 7).0 ≡ true
unfolding try_push
pushed = refl

falls_back_on_port : (read_scancode new 1 0x1e).0 ≡ some 0x1e
unfolding read_scancode new
falls_back_on_port = refl

letters : (scancode_to_char 0x1e ≡ some b'a') × (scancode_to_char 0x9e ≡ none)
unfolding scancode_to_char
letters = (refl, refl)

try_push_refines_example :
    let (pushed, q) = try_push wrapped 7 in
    ((pushed, contents q) ≡ Fifo.push (contents wrapped) 7) × IsValid q
try_push_refines_example = try_push_refines wrapped 7 wrapped-IsValid

abbrev devices : Devices
devices = record { queue = new; tty = Tty.new }

-- Two keys, with a byte of the mouse and an interrupt without a byte between them.
abbrev interrupts : List (ℕ × ℕ)
interrupts = (1, 0x1e) ∷ (0x21, 0x30) ∷ (0, 0x2e) ∷ (0x1d, 0x1c) ∷ []

interrupts_lem : keys interrupts ≡ 0x1e ∷ 0x1c ∷ []
unfolding keys
interrupts_lem = refl

handle_all-Handled_example : Handled devices (keys interrupts) (handle_all devices interrupts)
handle_all-Handled_example = handle_all-Handled devices interrupts new-IsValid.0
