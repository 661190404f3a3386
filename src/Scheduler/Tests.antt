-- ===== src/Scheduler/Tests.antt =====
-- The scheduler at a kernel with two live tasks and one that has exited.
use mathlib.Core.List.{map}
use rockos.Prelude.{ℕ, zero, suc, ◌≡◌, refl, true, false, Option, none, some, [], ◌∷◌, arith}
use rockos.Task.{SyscallSaved}
use rockos.Process.{Process, slot_is_alive_runnable, set_syscall_saved}
use rockos.Scheduler.{
  Kernel, contains, complete_syscall_and_schedule, exit_and_schedule, timer_interrupt_handler,
}
use rockos.Scheduler.Invariant.{
  IsValid, queue, complete_syscall_and_schedule-IsValid, exit_and_schedule-IsValid,
}
use rockos.Scheduler.Picking.{complete_syscall_and_schedule-overwrites}
use rockos.Scheduler.Fairness.{yields, yields_round_robin}

abbrev blank : SyscallSaved
blank = record {
  user_rsp = 0;
  user_rip = 0;
  user_rflags = 0;
  rbx = 0;
  rbp = 0;
  r12 = 0;
  r13 = 0;
  r14 = 0;
  r15 = 0;
}

abbrev task : ℕ → Option ℕ → Option Process
task pid exit_code = some (record {
  pid = pid;
  parent = none;
  brk_end = 0x404000;
  vm_areas = [];
  exit_code = exit_code;
  kstack_top = 0x9000;
  save = blank;
  pending_rax = 0;
})

abbrev sample : Kernel
sample = record {
  procs = task 1 none ∷ task 2 none ∷ task 3 (some 7) ∷ none ∷ [];
  current_slot = 0;
  current_kstack_top = 0x9000;
  sched = record { runnable = 0 ∷ 1 ∷ []; time_slice_ticks = 12; last_started_tick = 100 };
  need_resched = true;
  ticks = 111;
}

sample-IsValid : IsValid sample
unfolding contains slot_is_alive_runnable
sample-IsValid = record { distinct = (refl, (refl, tt)); live = live_slots }
  where
    live_slots : (j : ℕ) → contains (queue sample) j ≡ slot_is_alive_runnable sample.procs j
    live_slots zero = refl
    live_slots (suc zero) = refl
    live_slots (suc (suc zero)) = refl
    live_slots (suc (suc (suc zero))) = refl
    live_slots (suc (suc (suc (suc j)))) = ground arith

-- The twelfth tick of a slice asks for a switch.
slice_ends : (timer_interrupt_handler (record sample { need_resched = false })).need_resched ≡ true
unfolding timer_interrupt_handler
slice_ends = refl

complete_syscall_and_schedule-IsValid_example :
    IsValid (complete_syscall_and_schedule sample 5 blank).1
complete_syscall_and_schedule-IsValid_example =
    complete_syscall_and_schedule-IsValid sample 5 blank sample-IsValid

exit_and_schedule-IsValid_example : IsValid (exit_and_schedule sample 7).1
exit_and_schedule-IsValid_example = exit_and_schedule-IsValid sample 7 sample-IsValid

complete_syscall_and_schedule-overwrites_example :
    complete_syscall_and_schedule
      (record sample {
        procs = set_syscall_saved sample.procs 0 (record blank { user_rip = 0x400000 }) 0;
      })
      0
      blank
    ≡ complete_syscall_and_schedule sample 0 blank
complete_syscall_and_schedule-overwrites_example =
    complete_syscall_and_schedule-overwrites sample (record blank { user_rip = 0x400000 }) 0 0 blank

yields_round_robin_example : yields sample (blank ∷ []) ≡ map some (1 ∷ [])
yields_round_robin_example =
    yields_round_robin sample (blank ∷ []) 0 (1 ∷ []) sample-IsValid refl refl
