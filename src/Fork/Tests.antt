-- ===== src/Fork/Tests.antt =====
-- fork from a process in slot 0 with the stack page mapped.
use rockos.Prelude.{ℕ, zero, suc, ◌+◌, ◌≡◌, refl, true, false, Option, none, some, [], ◌∷◌, arith}
use rockos.Memory.{
  all_used, is_free, allocate_frame_inner, allocate_from, trailing_zeros, zeros_from, pass_over,
  deallocate_frame_inner, page_size,
}
use rockos.Task.{SyscallSaved, save_from_dispatch_rsp}
use rockos.Process.{
  Process, slot_is_alive_runnable, alloc_pid, alloc_pid_from, pid_used, alloc_slot, first_empty,
  current_pid, set_syscall_saved, update_at,
}
use rockos.Scheduler.{Kernel, contains, enqueue_new_task, note_yield}
use rockos.Scheduler.Invariant.{IsValid, queue}
use rockos.Brk.{map_page}
use rockos.Paging.{translate_addr, write_user_byte, copy_user_pages}
use rockos.Elf.Samples.{careful_pages, takes_frames, machine, machine-Owned}
use rockos.Fork.{World, returned, child_rsp, place_child, map_child_stack_and_copy, sys_fork}
use rockos.Fork.Copied.{ChildStack, map_child_stack_and_copy-ChildStack}
use rockos.Fork.Queued.{Forked, sys_fork-Forked}

abbrev saved : SyscallSaved
saved = record {
  user_rsp = 0x401f00;
  user_rip = 0x400100;
  user_rflags = 0x202;
  rbx = 0;
  rbp = 0;
  r12 = 0;
  r13 = 0;
  r14 = 0;
  r15 = 0;
}

abbrev parent : Process
parent = record {
  pid = 1;
  parent = none;
  brk_end = 0x404000;
  vm_areas = [];
  exit_code = none;
  kstack_top = 0x9000;
  save = saved;
  pending_rax = 0;
}

abbrev kernel : Kernel
kernel = record {
  procs = some parent ∷ none ∷ [];
  current_slot = 0;
  current_kstack_top = 0x9000;
  sched = record { runnable = 0 ∷ []; time_slice_ticks = 12; last_started_tick = 0 };
  need_resched = false;
  ticks = 3;
}

kernel-IsValid : IsValid kernel
unfolding contains slot_is_alive_runnable
kernel-IsValid = record { distinct = (refl, tt); live = live_slots }
  where
    live_slots : (j : ℕ) → contains (queue kernel) j ≡ slot_is_alive_runnable kernel.procs j
    live_slots zero = refl
    live_slots (suc zero) = refl
    live_slots (suc (suc j)) = ground arith

abbrev world : World (ℕ → Option ℕ)
world = record { kernel = kernel; machine = machine 0x400000 (λ a. 7) }

-- The words that `save_from_dispatch_rsp` reads at 0x8000.
abbrev stack_words : ℕ → ℕ
stack_words a = 0x401f00

program : Unit {0}
unfolding all_used is_free allocate_frame_inner allocate_from trailing_zeros zeros_from pass_over
    deallocate_frame_inner save_from_dispatch_rsp alloc_pid alloc_pid_from pid_used alloc_slot
    first_empty current_pid set_syscall_saved update_at contains enqueue_new_task note_yield
    map_page translate_addr write_user_byte copy_user_pages place_child map_child_stack_and_copy
    sys_fork
program = tt

child_is_2 : (sys_fork careful_pages world stack_words 0x8000 0xa000).0 ≡ returned 2
unfolding program
child_is_2 = refl

runs_both : queue ((sys_fork careful_pages world stack_words 0x8000 0xa000).1.kernel) ≡ 0 ∷ 1 ∷ []
unfolding program
runs_both = refl

sys_fork-Forked_example :
    Forked careful_pages world
      (save_from_dispatch_rsp stack_words 0x8000)
      0xa000
      (sys_fork careful_pages world stack_words 0x8000 0xa000)
sys_fork-Forked_example =
    sys_fork-Forked careful_pages world stack_words 0x8000 0xa000 kernel-IsValid

copies : (map_child_stack_and_copy careful_pages saved world.machine).0 ≡ true
unfolding program
copies = refl

map_child_stack_and_copy-ChildStack_example :
    (child_rsp 0x401f00 ≡ 0x401f00 + page_size)
    × ChildStack careful_pages takes_frames world.machine 0x401f00
        (map_child_stack_and_copy careful_pages saved world.machine).1
map_child_stack_and_copy-ChildStack_example =
    map_child_stack_and_copy-ChildStack careful_pages takes_frames world.machine saved
      (machine-Owned 0x400000 (λ a. 7)) (omega arith) copies
