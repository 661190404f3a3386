-- ===== src/Keyboard.antt =====
-- The PS/2 keyboard of src/keyboard.rs: the ring of scan codes between the interrupt handler and
-- its readers. A byte is a number; what the two controller ports return is an argument.
pub mod Layout
pub mod Fifo
pub mod Ring
pub mod Irq
mod Tests
use Prim.Native.Nat.{bit_and}
use rockos.Prelude.{
  ℕ, ◌+◌, ◌%◌, Bool, true, false, Option, none, some, List, length, get_or, set, replicate, ◌==◌,
  if◌then◌else◌,
}

abbrev pub scancode_buf_size : ℕ
scancode_buf_size = 256

abbrev pub status_out_full : ℕ
status_out_full = 1

abbrev pub status_aux_data : ℕ
status_aux_data = 0x20

pub record ScancodeQueue : Type 0 where
  pub buf : List ℕ
  pub head : ℕ
  pub tail : ℕ

unfoldable pub new : ScancodeQueue
new = record { buf = replicate scancode_buf_size 0; head = 0; tail = 0 }

-- The Boolean is what the source returns. A write out of range, which panics there, changes nothing
-- here; the ring's indices are in range.
unfoldable pub try_push : ScancodeQueue → ℕ → Bool × ScancodeQueue
try_push q b =
    let next = (q.tail + 1) % scancode_buf_size in
    if next == q.head
    then (false, q)
    else (true, record q { buf = set q.buf q.tail b; tail = next })

unfoldable pub try_pop : ScancodeQueue → Option ℕ × ScancodeQueue
try_pop q =
    if q.head == q.tail
    then (none, q)
    else (some (get_or q.buf q.head 0), record q { head = (q.head + 1) % scancode_buf_size })

-- `read_scancode_poll_port`: the status and the data byte that the ports return.
unfoldable pub read_scancode_poll_port : (status data_byte : ℕ) → Option ℕ
read_scancode_poll_port status data_byte =
    if bit_and status status_out_full == 0
    then none
    else if bit_and status status_aux_data == 0
    then some data_byte
    else none

-- `pop_scancode` is `try_pop` with interrupts off. `read_scancode` falls back on the ports.
unfoldable pub read_scancode : ScancodeQueue → (status data_byte : ℕ) → Option ℕ × ScancodeQueue
unfolding try_pop read_scancode_poll_port
read_scancode q status data_byte =
    let (popped, q') = try_pop q in
    elim popped [ some b ↦ (some b, q') | none ↦ (read_scancode_poll_port status data_byte, q') ]
