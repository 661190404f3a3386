-- ===== src/Keyboard/Irq.antt =====
-- The keyboard interrupt of src/keyboard.rs: a byte from the controller goes to the ring and to the
-- terminal.
use mathlib.Core.List.{append_assoc, append-nil}
use Prim.Native.Nat.{bit_and}
use rockos.Prelude.{
  ℕ, zero, suc, ◌-◌, ◌≡◌, ◌∙◌, refl, sym, ap, Bool, true, false, not, ◌||◌, List, [], ◌∷◌, ◌++◌,
  arith, length, length-append, take, ltb, ◌==◌, if◌then◌else◌, Bool-cases, inl, inr, subst, ltb→lt,
}
use rockos.Tty.{TtyState, feed_scancode, feed_all}
use rockos.Keyboard.{ScancodeQueue, try_push, status_out_full, status_aux_data}
use rockos.Keyboard.Fifo
use rockos.Keyboard.Ring.{IsValid, contents, try_push_refines}

pub record Devices : Type 0 where
  pub queue : ScancodeQueue
  pub tty : TtyState

-- `status` and `data` are what the two ports return.
unfoldable pub handle_keyboard_irq : Devices → (status data_byte : ℕ) → Devices
handle_keyboard_irq d status data_byte =
    if bit_and status status_out_full == 0
    then d
    else if not (bit_and status status_aux_data == 0)
    then d
    else record { queue = (try_push d.queue data_byte).1; tty = feed_scancode d.tty data_byte }

-- Several interrupts in turn, each with what the ports return.
unfoldable pub handle_all : Devices → List (ℕ × ℕ) → Devices
handle_all d [] = d
handle_all d ((status, data_byte) ∷ irqs) = handle_all (handle_keyboard_irq d status data_byte) irqs

-- A byte is there and does not come from the mouse.
abbrev pub is_key : ℕ → Bool
is_key status =
    not (bit_and status status_out_full == 0 || not (bit_and status status_aux_data == 0))

-- The scan codes among what the interrupts deliver.
unfoldable pub keys : List (ℕ × ℕ) → List ℕ
keys [] = []
keys ((status, data_byte) ∷ irqs) =
    let rest = keys irqs in if is_key status then data_byte ∷ rest else rest

handle_key :
    (d : Devices) (status data_byte : ℕ)
    → is_key status ≡ true
    → handle_keyboard_irq d status data_byte
      ≡ record { queue = (try_push d.queue data_byte).1; tty = feed_scancode d.tty data_byte }
unfolding handle_keyboard_irq
handle_key d status data_byte h = ground (arith, h)

handle_other :
    (d : Devices) (status data_byte : ℕ)
    → is_key status ≡ false
    → handle_keyboard_irq d status data_byte ≡ d
unfolding handle_keyboard_irq
handle_other d status data_byte h = ground (arith, h)

-- Pushing one byte, then as many as fit.
push-take :
    (l : List ℕ) (b : ℕ) (bs : List ℕ)
    → let l' = (Fifo.push l b).1 in
      l' ++ take (255 - length l') bs ≡ l ++ take (255 - length l) (b ∷ bs)
unfolding Fifo.push
push-take l b bs = elim (Bool-cases (ltb (length l) 255)) [
  | inl room ↦ rw room (
      append_assoc l (b ∷ []) (take (255 - length (l ++ b ∷ [])) bs)
      ∙ (let e : suc (255 - length (l ++ b ∷ [])) ≡ 255 - length l =
            omega (arith, length-append l (b ∷ []), ltb→lt (length l) 255 room) in
          ap (λ k. l ++ take k (b ∷ bs)) e))
  | inr full ↦
      let e : 255 - length l ≡ 0 = ground arith in
      rw full (ap (λ k. l ++ take k bs) e ∙ sym (ap (λ k. l ++ take k (b ∷ bs)) e))
]

-- The outcome of interrupts that deliver `codes`: the terminal has got all of them, the ring as many
-- as there was room for, in their order.
pub record Handled (d : Devices) (codes : List ℕ) (d' : Devices) : Type 0 where
  pub fed : d'.tty ≡ feed_all d.tty codes
  pub queued : contents d'.queue ≡ contents d.queue ++ take (255 - length (contents d.queue)) codes
  pub valid : IsValid d'.queue

take_nil : (n : ℕ) → take {A = ℕ} n [] ≡ []
take_nil zero = refl
take_nil (suc n) = refl

nothing_taken :
    (d : Devices) → contents d.queue ≡ contents d.queue ++ take (255 - length (contents d.queue)) []
nothing_taken d =
    let l = contents d.queue in sym (ap (λ m. l ++ m) (take_nil (255 - length l)) ∙ append-nil l)

Handled-key :
    (d : Devices) (b : ℕ) (codes : List ℕ) (d' : Devices)
    → IsValid d.queue
    → (IsValid (try_push d.queue b).1
        → Handled (record { queue = (try_push d.queue b).1; tty = feed_scancode d.tty b }) codes d')
    → Handled d (b ∷ codes) d'
unfolding feed_all
Handled-key d b codes d' v go_on =
    let (pushed, still) = try_push_refines d.queue b v in
    let h = go_on still in
    let now : contents (try_push d.queue b).1 ≡ (Fifo.push (contents d.queue) b).1 =
      ap (λ p. p.1) pushed in
    record {
      fed = h.fed;
      queued =
          h.queued
          ∙ ap (λ l. l ++ take (255 - length l) codes) now
          ∙ push-take (contents d.queue) b codes;
      valid = h.valid;
    }

-- Whatever the controller delivers, the terminal is fed every scan code in order; the ring holds
-- what it held and behind it the first of them, as many as there was room for up to 255 bytes; a
-- byte of the mouse and an interrupt without a byte reach neither.
pub handle_all-Handled :
    (d : Devices) (irqs : List (ℕ × ℕ))
    → IsValid d.queue
    → Handled d (keys irqs) (handle_all d irqs)
unfolding handle_all keys feed_all
handle_all-Handled d [] v = record { fed = refl; queued = nothing_taken d; valid = v }
handle_all-Handled d ((status, b) ∷ irqs) v = elim (Bool-cases (is_key status)) [
  | inl key ↦ rw key (
      subst (λ x. Handled d (b ∷ keys irqs) (handle_all x irqs)) (sym (handle_key d status b key))
        (Handled-key d b (keys irqs)
          (handle_all (record { queue = (try_push d.queue b).1; tty = feed_scancode d.tty b }) irqs)
          v
          (λ still.
            handle_all-Handled
              (record { queue = (try_push d.queue b).1; tty = feed_scancode d.tty b }) irqs still)))
  | inr other ↦ rw other (
      subst (λ x. Handled d (keys irqs) (handle_all x irqs)) (sym (handle_other d status b other))
        (handle_all-Handled d irqs v))
]
