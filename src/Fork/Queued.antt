-- ===== src/Fork/Queued.antt =====
-- What `sys_fork` of src/process.rs does to the process table and the run queue.
use rockos.Prelude.{
  ℕ, ◌≡◌, ◌≢◌, ◌⊎◌, ◌∙◌, refl, ap, true, false, none, some, [], ◌∷◌, ◌++◌, arith, set, ◌==◌,
  if◌then◌else◌, Bool-cases, Option-cases, inl, inr,
}
use rockos.Task.{Ram, SyscallSaved, save_from_dispatch_rsp}
use rockos.Process.{
  Process, ProcessTable, process_at, alloc_slot, alloc_pid, current_pid, set_syscall_saved,
  slot_is_alive_runnable,
}
use rockos.Process.Slots.{process_at-update_at}
use rockos.Scheduler.{Kernel, contains, enqueue_new_task, note_yield, with_runnable}
use rockos.Scheduler.Queue.{contains-append, Distinct-append_one}
use rockos.Scheduler.Invariant.{queue, IsValid}
use rockos.Fs.{errno}
use rockos.Brk.{Mapper}
use rockos.Fork.{
  World, Outcome, returned, panicked, place_child, child_save, child_process,
  map_child_stack_and_copy, sys_fork,
}
use rockos.Fork.Placing.{FreeSlot, alloc_slot-FreeSlot, process_at-set}

-- The kernel once a child has been placed: the child in a slot that was empty, the other slots as
-- they were, the child at the back of the run queue, and a switch of tasks due.
pub record Placed (k : Kernel) (child : Process) (saved : SyscallSaved) (k' : Kernel) : Type 0 where
  pub slot : ℕ
  pub absent : process_at k.procs slot ≡ none
  pub there :
      process_at k'.procs slot ≡ some (record child { save = child_save saved; pending_rax = 0 })
  pub others : (j : ℕ) → j ≢ slot → process_at k'.procs j ≡ process_at k.procs j
  pub queued : queue k' ≡ queue k ++ slot ∷ []
  pub switch : k'.need_resched ≡ true
  pub valid : IsValid k'

alive-absent :
    (t : ProcessTable) (i : ℕ) → process_at t i ≡ none → slot_is_alive_runnable t i ≡ false
unfolding slot_is_alive_runnable
alive-absent t i e = rw (slot_is_alive_runnable, e) refl

alive-running :
    (t : ProcessTable) (i : ℕ) (p : Process)
    → process_at t i ≡ some p
    → p.exit_code ≡ none
    → slot_is_alive_runnable t i ≡ true
unfolding slot_is_alive_runnable
alive-running t i p e running = rw (slot_is_alive_runnable, e) (rw running refl)

alive-same :
    (t t' : ProcessTable) (j : ℕ)
    → process_at t' j ≡ process_at t j
    → slot_is_alive_runnable t' j ≡ slot_is_alive_runnable t j
unfolding slot_is_alive_runnable
alive-same t t' j e = ground (arith, e)

enqueue-fresh :
    (k : Kernel) (slot : ℕ)
    → contains (queue k) slot ≡ false
    → note_yield (enqueue_new_task k slot)
      ≡ note_yield (note_yield (with_runnable k (queue k ++ slot ∷ [])))
unfolding enqueue_new_task
enqueue-fresh k slot e = rw (enqueue_new_task, e) refl

module _ (k : Kernel) (child : Process) (saved : SyscallSaved) (v : IsValid k)
    (running : child.exit_code ≡ none) where
  module _ (i : ℕ) (t : ProcessTable) (free : FreeSlot k.procs i t) where
    abbrev with_child : ProcessTable
    with_child = set_syscall_saved (set t i (some child)) i (child_save saved) 0

    abbrev saved_child : Process
    saved_child = record child { save = child_save saved; pending_rax = 0 }

    process_at-with_child :
        (j : ℕ)
        → process_at with_child j ≡ (if i == j then some saved_child else process_at k.procs j)
    unfolding set_syscall_saved
    process_at-with_child j =
        let a =
          process_at-update_at (set t i (some child)) i j
            (λ p. record p { save = child_save saved; pending_rax = 0 }) in
        let b = process_at-set t i j child free.inside in
        let c = free.same j in ground (arith, a, b, c)

    alive-with_child :
        (j : ℕ)
        → slot_is_alive_runnable with_child j
          ≡ (if i == j then true else slot_is_alive_runnable k.procs j)
    alive-with_child j =
        let p = process_at-with_child j in
        elim (Bool-cases (i == j)) [
          | inl here ↦ rw here (
              alive-running with_child j saved_child
                (p ∙ ap (λ b. if b then some saved_child else process_at k.procs j) here) running)
          | inr away ↦ rw away (
              alive-same k.procs with_child j
                (p ∙ ap (λ b. if b then some saved_child else process_at k.procs j) away))
        ]

    place_at-Placed :
        Placed k child saved (note_yield (enqueue_new_task (record k { procs = with_child }) i))
    unfolding note_yield contains
    place_at-Placed =
        let k1 : Kernel = record k { procs = with_child } in
        let new : contains (queue k) i ≡ false = v.live i ∙ alive-absent k.procs i free.absent in
        let p = process_at-with_child i in
        rw (enqueue-fresh k1 i new) (record {
          slot = i;
          absent = free.absent;
          there = ground (arith, p);
          others = λ j off. (let q = process_at-with_child j in ground (arith, q, off));
          queued = refl;
          switch = refl;
          valid = record {
            distinct = Distinct-append_one (queue k) i new v.distinct;
            live = λ j.
                let a = alive-with_child j in
                let c = contains-append (queue k) (i ∷ []) j in
                let l = v.live j in ground (arith, a, c, l);
          };
        })

  -- The child is placed, or there is no slot for it and the `unwrap` panics.
  place_child-Placed :
      ((alloc_slot k.procs).0 ≡ none) × ((place_child k child saved).0 ≡ panicked)
      ⊎ ((place_child k child saved).0 ≡ returned child.pid)
        × Placed k child saved (place_child k child saved).1
  unfolding place_child
  place_child-Placed = elim (Option-cases (alloc_slot k.procs).0) [
    | inl full ↦ inl (full, rw (place_child, full) refl)
    | inr (i, given) ↦
        let t = (alloc_slot k.procs).1 in
        let free = alloc_slot-FreeSlot k.procs i given in
        let step : place_child k child saved ≡ (
          returned child.pid,
          note_yield (enqueue_new_task (record k { procs = with_child i t free }) i),
        ) =
          rw (place_child, given) refl in
        inr (rw step (refl, place_at-Placed i t free))
  ]

module _ {T : Type 0} (M : Mapper T) where
  -- The outcomes of `sys_fork`: -12 with the kernel as it was; the panic of an `unwrap`, where no slot
  -- is left or the caller has no process; or a child with a pid that no process had.
  pub data Forked (w : World T) (saved : SyscallSaved) (kstack_top : ℕ) (out : Outcome × World T)
      : Type 0 where
    refused : out.0 ≡ returned (errno 12) → out.1.kernel ≡ w.kernel → Forked w saved kstack_top out
    full :
        out.0 ≡ panicked
        → ((alloc_slot w.kernel.procs).0 ≡ none)
          ⊎ (process_at w.kernel.procs w.kernel.current_slot ≡ none)
        → Forked w saved kstack_top out
    forked :
        (pid : ℕ) (parent : Process)
        → alloc_pid w.kernel.procs ≡ some pid
        → process_at w.kernel.procs w.kernel.current_slot ≡ some parent
        → out.0 ≡ returned pid
        → Placed w.kernel
            (child_process pid
              (current_pid w.kernel.procs w.kernel.current_slot)
              kstack_top
              saved
              parent)
            saved
            out.1.kernel
        → Forked w saved kstack_top out

  -- From a kernel whose run queue holds each live process once, fork answers -12 with the
  -- processes and the queue as they were; or it panics, where no slot is left or the caller has no
  -- process; or it returns a pid from `alloc_pid`, with the child of the caller in a slot that was
  -- empty, the other slots as they were, and the child at the back of the queue, which again holds
  -- each live process once.
  pub sys_fork-Forked :
      (w : World T) (mem : Ram) (rsp kstack_top : ℕ)
      → IsValid w.kernel
      → Forked w (save_from_dispatch_rsp mem rsp) kstack_top (sys_fork M w mem rsp kstack_top)
  unfolding sys_fork
  sys_fork-Forked w mem rsp kstack_top v = elim (Option-cases (alloc_pid w.kernel.procs)) [
    | inl none_left ↦ rw (sys_fork, none_left) (refused refl refl)
    | inr (pid, free) ↦
        let saved = save_from_dispatch_rsp mem rsp in
        let copy = map_child_stack_and_copy M saved w.machine in
        elim (Bool-cases copy.0) [
          | inr failed ↦ rw (sys_fork, free) (rw failed (refused refl refl))
          | inl copied ↦ elim (Option-cases (process_at w.kernel.procs w.kernel.current_slot)) [
            | inl missing ↦ rw (sys_fork, free) (rw copied (rw missing (full refl (inr missing))))
            | inr (parent, there) ↦
                let child =
                  child_process pid (current_pid w.kernel.procs w.kernel.current_slot) kstack_top
                    saved parent in
                let step : sys_fork M w mem rsp kstack_top ≡ (
                  (place_child w.kernel child saved).0,
                  record { kernel = (place_child w.kernel child saved).1; machine = copy.1 },
                ) =
                  rw (sys_fork, free) (rw copied (rw there refl)) in
                rw step (elim (place_child-Placed w.kernel child saved v refl) [
                  | inl (no_slot, panic) ↦ full panic (inl no_slot)
                  | inr (ret, placed) ↦ forked pid parent free there ret placed
                ])
          ]
        ]
  ]
