-- ===== src/Syscall/Sleep.antt =====
-- `sys_nanosleep` of src/syscall.rs and `sleep_until_ticks` of src/scheduler.rs. An i64 is a sign and a
-- magnitude; a product that leaves 64 bits panics, as it does in the profile that the crate is built
-- with.
use rockos.Prelude.{
  ℕ, suc, ◌+◌, ◌-◌, ◌*◌, ◌/◌, ◌^◌, min, ◌≤◌, ◌<◌, ◌≡◌, ◌∙◌, refl, ap, Bool, true, false, not,
  Option, none, some, List, [], ◌∷◌, arith, ltb, leb, ◌==◌, if◌then◌else◌, Bool-cases, inl, inr,
}
use rockos.Process.{ProcessTable}
use rockos.User.{UserImage, user_region_is_readable_range}
use rockos.Fs.{errno}
use rockos.Mmap.{saturating_add}

pub data Signed : Type 0 where
  plus : (magnitude : ℕ) → Signed
  minus : (magnitude : ℕ) → Signed

-- `i64::from_le_bytes`, from the bit pattern.
abbrev pub signed : ℕ → Signed
signed bits = if ltb bits (2 ^ 63) then plus bits else minus (2 ^ 64 - bits)

abbrev pub timer_hz : ℕ
timer_hz = 100

-- `saturating_mul` by a positive number, and `saturating_add`.
unfoldable pub saturating_times : Signed → ℕ → Signed
saturating_times (plus a) h = plus (min (a * h) (2 ^ 63 - 1))
saturating_times (minus a) h = minus (min (a * h) (2 ^ 63))

unfoldable pub saturating_plus : Signed → Signed → Signed
saturating_plus (plus a) (plus b) = plus (min (a + b) (2 ^ 63 - 1))
saturating_plus (plus a) (minus b) = if leb b a then plus (a - b) else minus (b - a)
saturating_plus (minus a) (plus b) = if leb a b then plus (b - a) else minus (a - b)
saturating_plus (minus a) (minus b) = minus (min (a + b) (2 ^ 63))

-- `(nsec * hz) / 1_000_000_000`; none is the panic of the product.
unfoldable pub part_ticks : Signed → Option Signed
part_ticks (plus b) =
    if ltb (b * timer_hz) (2 ^ 63) then some (plus (b * timer_hz / 1000000000)) else none
part_ticks (minus b) =
    if leb (b * timer_hz) (2 ^ 63) then some (minus (b * timer_hz / 1000000000)) else none

-- `ticks.max(1) as u64`.
unfoldable pub at_least_one : Signed → ℕ
at_least_one (plus a) = if a == 0 then 1 else a
at_least_one (minus a) = 1

unfoldable pub sleep_ticks : (sec nsec : Signed) → Option ℕ
sleep_ticks sec nsec = elim (part_ticks nsec) [
  | none ↦ none
  | some part ↦ some (at_least_one (saturating_plus (saturating_times sec timer_hz) part))
]

-- The loop of `sleep_until_ticks` over the interrupts that end its halts, true for the timer's: what is
-- left of them, and TICKS when the loop ends; none where it has not ended.
unfoldable pub sleep_until_ticks : (deadline ticks : ℕ) → List Bool → Option (ℕ × List Bool)
sleep_until_ticks deadline ticks [] = if leb deadline ticks then some (ticks, []) else none
sleep_until_ticks deadline ticks (timer ∷ irqs) = elim (ltb ticks deadline) [
  | false ↦ some (ticks, timer ∷ irqs)
  | true ↦ sleep_until_ticks deadline (if timer then ticks + 1 else ticks) irqs
]

-- What `sys_nanosleep` does with its two words: an error number, the panic, or a deadline.
pub data Sleep : Type 0 where
  failed : (e : ℕ) → Sleep
  overflowed : Sleep
  until : (deadline : ℕ) → Sleep

unfoldable pub sys_nanosleep :
    UserImage → ProcessTable → (current_slot req : ℕ) → (word : ℕ → ℕ) → (ticks : ℕ) → Sleep
sys_nanosleep u t current_slot req word ticks =
    if req == 0
    then failed (errno 14)
    else if not (user_region_is_readable_range u t current_slot req 16)
    then failed (errno 14)
    else elim (sleep_ticks (signed (word req)) (signed (word (req + 8)))) [
      | none ↦ overflowed
      | some n ↦ until (saturating_add ticks n)
    ]

-- The number of timer interrupts that a list holds.
abbrev pub timers : List Bool → ℕ
timers [] = 0
timers (true ∷ irqs) = suc (timers irqs)
timers (false ∷ irqs) = timers irqs

next_timers :
    (ticks : ℕ) (timer : Bool) (irqs : List Bool)
    → (if timer then ticks + 1 else ticks) + timers irqs ≡ ticks + timers (timer ∷ irqs)
next_timers ticks true irqs = omega arith
next_timers ticks false irqs = refl

-- The tick at which a wait ends.
abbrev pub woken_at : Option (ℕ × List Bool) → Option ℕ
woken_at none = none
woken_at (some r) = some r.0

-- A wait ends just when enough timer interrupts have come, and at the deadline exactly, unless that
-- has passed when it starts.
pub sleep_until_ticks-ends :
    (deadline ticks : ℕ) (irqs : List Bool)
    → ticks ≤ deadline
    → woken_at (sleep_until_ticks deadline ticks irqs)
      ≡ (if leb deadline (ticks + timers irqs) then some deadline else none)
unfolding sleep_until_ticks
sleep_until_ticks-ends deadline ticks [] h = ground arith
sleep_until_ticks-ends deadline ticks (timer ∷ irqs) h = elim (Bool-cases (ltb ticks deadline)) [
  | inr there ↦
      let step : sleep_until_ticks deadline ticks (timer ∷ irqs) ≡ some (ticks, timer ∷ irqs) =
        rw (sleep_until_ticks, there) refl in
      rw step (ground (arith, there))
  | inl waiting ↦
      let next = if timer then ticks + 1 else ticks in
      let step : sleep_until_ticks deadline ticks (timer ∷ irqs)
          ≡ sleep_until_ticks deadline next irqs =
        rw (sleep_until_ticks, waiting) refl in
      let bound : next ≤ deadline = ground arith in
      ap woken_at step
      ∙ sleep_until_ticks-ends deadline next irqs bound
      ∙ ap (λ n. if leb deadline n then some deadline else none) (next_timers ticks timer irqs)
]

-- A request of fewer than 2 ^ 56 seconds and less than a second of nanoseconds sleeps as many
-- ticks as fit into it whole, but at least one.
pub sleep_ticks-bounds :
    (sec nsec : ℕ)
    → nsec < 1000000000
    → sec < 2 ^ 56
    → (n : ℕ) × (sleep_ticks (plus sec) (plus nsec) ≡ some (if n == 0 then 1 else n))
      × (n * 10000000 ≤ sec * 1000000000 + nsec)
      × (sec * 1000000000 + nsec < (n + 1) * 10000000)
unfolding sleep_ticks part_ticks at_least_one saturating_plus saturating_times
sleep_ticks-bounds sec nsec h k =
    (sec * 100 + nsec / 10000000, ground arith, omega arith, omega arith)
