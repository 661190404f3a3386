-- ===== src/Scheduler.antt =====
-- The run queue of src/scheduler.rs, with the handlers that lead to it: the timer interrupt of
-- src/interrupts.rs, and the ends of a system call and of `exit`. The statics of the kernel are the
-- fields of one record, which each operation takes and returns.
pub mod Queue
pub mod Picking
pub mod Invariant
pub mod Fairness
mod Tests
use rockos.Prelude.{
  ℕ, zero, suc, ◌+◌, ◌-◌, ◌%◌, ◌^◌, Bool, true, false, ◌||◌, Option, none, some, List, [], ◌∷◌,
  ◌++◌, ltb, leb, ◌==◌, if◌then◌else◌,
}
use rockos.Task.{SyscallSaved}
use rockos.Process.{
  Process, ProcessTable, process_at, set_syscall_saved, mark_exited, kstack_top_for_slot,
  syscall_saved_for_slot, pending_rax_for_slot, slot_is_alive_runnable,
}

abbrev pub slice : ℕ
slice = 12

pub record SchedState : Type 0 where
  pub runnable : List ℕ
  pub time_slice_ticks : ℕ
  pub last_started_tick : ℕ

-- TABLE, CURRENT_SLOT, CURRENT_KSTACK_TOP, SCHED, NEED_RESCHED and TICKS.
pub record Kernel : Type 0 where
  pub procs : ProcessTable
  pub current_slot : ℕ
  pub current_kstack_top : ℕ
  pub sched : SchedState
  pub need_resched : Bool
  pub ticks : ℕ

-- `scheduler::init`.
unfoldable pub init : Kernel → Kernel
init k = record k {
  sched = record { runnable = 0 ∷ []; time_slice_ticks = slice; last_started_tick = k.ticks };
  need_resched = false;
}

unfoldable pub on_timer_tick : Kernel → ℕ → Kernel
on_timer_tick k now =
    if leb k.sched.time_slice_ticks (now - k.sched.last_started_tick)
    then record k { need_resched = true }
    else k

-- The timer interrupt: TICKS is 64 bits wide and wraps.
unfoldable pub timer_interrupt_handler : Kernel → Kernel
unfolding on_timer_tick
timer_interrupt_handler k =
    let t = (k.ticks + 1) % 2 ^ 64 in on_timer_tick (record k { ticks = t }) t

unfoldable pub note_yield : Kernel → Kernel
note_yield k = record k { need_resched = true }

unfoldable pub contains : List ℕ → ℕ → Bool
contains [] slot = false
contains (c ∷ q) slot = c == slot || contains q slot

abbrev pub with_runnable : Kernel → List ℕ → Kernel
with_runnable k q = record k { sched = record (k.sched) { runnable = q } }

unfoldable pub enqueue_new_task : Kernel → ℕ → Kernel
unfolding contains
enqueue_new_task k slot =
    note_yield (
      if contains k.sched.runnable slot then k else with_runnable k (k.sched.runnable ++ slot ∷ []))

unfoldable pub rotate : List ℕ → List ℕ
rotate [] = []
rotate (front ∷ q) = q ++ front ∷ []

unfoldable pub rotate_runnable : Kernel → Kernel
unfolding rotate
rotate_runnable k = record k {
  sched = record (k.sched) { runnable = rotate k.sched.runnable; last_started_tick = k.ticks };
}

-- `retain(|&x| x != slot)`.
unfoldable pub remove : List ℕ → ℕ → List ℕ
remove [] slot = []
remove (c ∷ q) slot = let rest = remove q slot in if c == slot then rest else c ∷ rest

-- The inner loop of `pick_next_and_restore`: dead slots leave the front of the queue.
unfoldable pub drop_dead : ProcessTable → List ℕ → List ℕ
drop_dead t [] = []
drop_dead t (c ∷ q) = elim (slot_is_alive_runnable t c) [ true ↦ c ∷ q | false ↦ drop_dead t q ]

-- With what the next task is resumed. `saved` is none where the source panics.
pub record Resumption : Type 0 where
  pub slot : ℕ
  pub rax : ℕ
  pub top : ℕ
  pub saved : Option SyscallSaved

unfoldable pub set_current_slot : Kernel → ℕ → Kernel
set_current_slot k s = record k {
  current_slot = s;
  current_kstack_top = kstack_top_for_slot k.procs s k.current_kstack_top;
}

-- `none` stands for the outer loop that halts for ever: the queue is empty, and the interrupts that
-- end a `hlt` add nothing to it.
unfoldable pub pick_front : Kernel → List ℕ → Option Resumption × Kernel
unfolding set_current_slot
pick_front k [] = (none, with_runnable k [])
pick_front k (next ∷ q) =
    let k' = set_current_slot (with_runnable k (next ∷ q)) next in
    (
      some (record {
        slot = next;
        rax = pending_rax_for_slot k.procs next;
        top = kstack_top_for_slot k.procs next k'.current_kstack_top;
        saved = syscall_saved_for_slot k.procs next;
      }),
      k',
    )

unfoldable pub pick_next_and_restore : Kernel → Option Resumption × Kernel
unfolding pick_front
pick_next_and_restore k = pick_front k (drop_dead k.procs k.sched.runnable)

-- `saved` is what `save_from_dispatch_rsp` reads.
unfoldable pub complete_syscall_and_schedule :
    Kernel → (ret_val : ℕ) → SyscallSaved → Option Resumption × Kernel
unfolding rotate_runnable
complete_syscall_and_schedule k ret_val saved =
    let k1 = record k { procs = set_syscall_saved k.procs k.current_slot saved ret_val } in
    let k2 = record k1 { need_resched = false } in
    pick_next_and_restore (if k.need_resched then rotate_runnable k2 else k2)

unfoldable pub schedule_after_exit : Kernel → Option Resumption × Kernel
unfolding remove
schedule_after_exit k =
    let k1 = with_runnable k (remove k.sched.runnable k.current_slot) in
    pick_next_and_restore (record k1 { need_resched = true })

-- `exit_and_schedule` of src/syscall.rs, without its line on the console.
unfoldable pub exit_and_schedule : Kernel → (code : ℕ) → Option Resumption × Kernel
unfolding schedule_after_exit
exit_and_schedule k code =
    schedule_after_exit (record k { procs = mark_exited k.procs k.current_slot code })

-- The system call `sched_yield`, from dispatch to the next task.
unfoldable pub sched_yield : Kernel → SyscallSaved → Option Resumption × Kernel
unfolding note_yield complete_syscall_and_schedule
sched_yield k saved = complete_syscall_and_schedule (note_yield k) 0 saved
