-- ===== src/Fork.antt =====
-- `sys_fork` of src/process.rs with `map_child_stack_and_copy`, over the kernel state of Scheduler and
-- the page table and memory of Paging. The address that `mov rsp` gives inside `sys_fork`, the kernel
-- stack's words and the top of the child's kernel stack are arguments.
pub mod Copied
pub mod Placing
pub mod Queued
mod Tests
use rockos.Prelude.{
  ℕ, zero, suc, ◌+◌, ◌-◌, ◌^◌, Bool, true, false, Option, none, some, List, set, leb, if◌then◌else◌,
}
use rockos.Task.{Ram, SyscallSaved, save_from_dispatch_rsp}
use rockos.Process.{
  Process, ProcessTable, process_at, alloc_pid, alloc_slot, current_pid, set_syscall_saved,
  user_stack_top,
}
use rockos.Scheduler.{Kernel, enqueue_new_task, note_yield}
use rockos.User.{stack_lo}
use rockos.Fs.{errno}
use rockos.Brk.{Mapper, heap_flags, map_page}
use rockos.Paging.{Machine, copy_user_pages}

abbrev pub child_stack_lo : ℕ
child_stack_lo = 0x402000

abbrev pub user_stack_child_top : ℕ
user_stack_child_top = 0x403000

-- The kernel state and the machine's memory.
pub record World (T : Type 0) : Type 0 where
  pub kernel : Kernel
  pub machine : Machine T

-- The result of a call, or the panic of an `unwrap`.
pub data Outcome : Type 0 where
  returned : (ret : ℕ) → Outcome
  panicked : Outcome

-- `user_rsp` of the child: the parent's, as far below the top of its own stack.
abbrev pub child_rsp : (user_rsp : ℕ) → ℕ
child_rsp user_rsp = user_stack_child_top - (user_stack_top - user_rsp)

abbrev pub child_save : SyscallSaved → SyscallSaved
child_save saved = record saved { user_rsp = child_rsp saved.user_rsp }

-- The child's process: the parent's heap end and areas.
abbrev pub child_process : (pid parent_pid kstack_top : ℕ) → SyscallSaved → Process → Process
child_process pid parent_pid kstack_top saved p = record {
  pid = pid;
  parent = some parent_pid;
  brk_end = p.brk_end;
  vm_areas = p.vm_areas;
  exit_code = none;
  kstack_top = kstack_top;
  save = child_save saved;
  pending_rax = 0;
}

-- The end of `sys_fork`: the child goes into a slot and onto the run queue.
unfoldable pub place_child : Kernel → Process → SyscallSaved → Outcome × Kernel
place_child k child saved =
    let (slot, t) = alloc_slot k.procs in
    elim slot [
      | none ↦ (panicked, record k { procs = t })
      | some i ↦
          let t' = set_syscall_saved (set t i (some child)) i (child_save saved) 0 in
          (returned child.pid, note_yield (enqueue_new_task (record k { procs = t' }) i))
    ]

module _ {T : Type 0} (M : Mapper T) where
  -- false: an error, -12 to the caller.
  unfoldable pub map_child_stack_and_copy : SyscallSaved → Machine T → Bool × Machine T
  map_child_stack_and_copy saved m =
      let (mapped, (t, fa)) = map_page M child_stack_lo heap_flags (m.pages, m.allocator) in
      let src_lo = saved.user_rsp in
      let src_hi = user_stack_top in
      let dst_lo = child_stack_lo + (src_lo - stack_lo) in
      let (copied, ram) = copy_user_pages M t m.ram src_lo dst_lo (src_hi - src_lo) in
      if mapped
      then (if leb src_hi src_lo
          then (false, record m { pages = t; allocator = fa })
          else (copied, record { pages = t; allocator = fa; ram = ram }))
      else (false, record m { pages = t; allocator = fa })

  unfoldable pub sys_fork : World T → (mem : Ram) (rsp kstack_top : ℕ) → Outcome × World T
  sys_fork w mem rsp kstack_top = elim (alloc_pid w.kernel.procs) [
    | none ↦ (returned (errno 12), w)
    | some child_pid ↦
        let k = w.kernel in
        let saved = save_from_dispatch_rsp mem rsp in
        let (copied, m) = map_child_stack_and_copy saved w.machine in
        elim copied [
          | false ↦ (returned (errno 12), record w { machine = m })
          | true ↦ elim (process_at k.procs k.current_slot) [
            | none ↦ (panicked, record w { machine = m })
            | some p ↦
                let parent_pid = current_pid k.procs k.current_slot in
                let child = child_process child_pid parent_pid kstack_top saved p in
                let (out, k') = place_child k child saved in
                (out, record { kernel = k'; machine = m })
          ]
        ]
  ]
