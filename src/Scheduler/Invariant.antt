-- ===== src/Scheduler/Invariant.antt =====
-- The run queue holds each live process exactly once; every scheduling operation keeps it so.
use rockos.Prelude.{
  ℕ, ◌≡◌, refl, sym, ap, subst, ◌∙◌, Bool, true, false, some, List, [], ◌∷◌, arith, ◌==◌,
  if◌then◌else◌, Bool-cases, inl, inr,
}
use rockos.Task.{SyscallSaved}
use rockos.Process.{ProcessTable, set_syscall_saved, mark_exited, slot_is_alive_runnable}
use rockos.Process.Slots.{process_at-update_at}
use rockos.Scheduler.{
  Kernel, with_runnable, contains, remove, rotate_runnable, pick_front, pick_next_and_restore,
  complete_syscall_and_schedule, exit_and_schedule,
}
use rockos.Scheduler.Queue.{
  Distinct, contains-rotate, contains-remove, Distinct-rotate, Distinct-remove, drop_dead-alive,
}

abbrev pub queue : Kernel → List ℕ
queue k = k.sched.runnable

pub record IsValid (k : Kernel) : Type 0 where
  pub distinct : Distinct (queue k)
  pub live : (j : ℕ) → contains (queue k) j ≡ slot_is_alive_runnable k.procs j

-- Saving a frame changes no process's life.
pub alive-set_syscall_saved :
    (t : ProcessTable) (slot : ℕ) (save : SyscallSaved) (rax j : ℕ)
    → slot_is_alive_runnable (set_syscall_saved t slot save rax) j ≡ slot_is_alive_runnable t j
unfolding slot_is_alive_runnable set_syscall_saved
alive-set_syscall_saved t slot save rax j =
    ground (arith, process_at-update_at t slot j (λ p. record p { save = save; pending_rax = rax }))

-- An exit ends the life of one slot.
pub alive-mark_exited :
    (t : ProcessTable) (slot status j : ℕ)
    → slot_is_alive_runnable (mark_exited t slot status) j
      ≡ (if slot == j then false else slot_is_alive_runnable t j)
unfolding slot_is_alive_runnable mark_exited
alive-mark_exited t slot status j =
    ground (arith, process_at-update_at t slot j (λ p. record p { exit_code = some status }))

-- Picking only reads a valid queue.
pub pick_next_and_restore_lem :
    (k : Kernel) → IsValid k → pick_next_and_restore k ≡ pick_front k (queue k)
unfolding pick_next_and_restore
pick_next_and_restore_lem k v =
    ap (pick_front k) (drop_dead-alive k.procs (queue k) (λ j h. sym (v.live j) ∙ h))

pick_front-keeps :
    (k : Kernel) (q : List ℕ)
    → queue k ≡ q
    → ((pick_front k q).1.procs ≡ k.procs) × (queue (pick_front k q).1 ≡ q)
unfolding pick_front
pick_front-keeps k [] e = (refl, refl)
pick_front-keeps k (c ∷ q) e = (refl, refl)

pub pick_next_and_restore-IsValid : (k : Kernel) → IsValid k → IsValid (pick_next_and_restore k).1
pick_next_and_restore-IsValid k v =
    let e = pick_front-keeps k (queue k) refl in
    rw (pick_next_and_restore_lem k v) (record {
      distinct = subst Distinct (sym e.1) v.distinct;
      live = λ j.
          ap (λ q. contains q j) e.1 ∙ v.live j ∙ ap (λ t. slot_is_alive_runnable t j) (sym e.0);
    })

rotate_runnable-IsValid : (k : Kernel) → IsValid k → IsValid (rotate_runnable k)
unfolding rotate_runnable
rotate_runnable-IsValid k v = record {
  distinct = Distinct-rotate (queue k) v.distinct;
  live = λ j. contains-rotate (queue k) j ∙ v.live j;
}

save-IsValid :
    (k : Kernel) (save : SyscallSaved) (rax : ℕ) (pending : Bool)
    → IsValid k
    → IsValid (record k {
      procs = set_syscall_saved k.procs k.current_slot save rax;
      need_resched = pending;
    })
save-IsValid k save rax pending v = record {
  distinct = v.distinct;
  live = λ j. v.live j ∙ sym (alive-set_syscall_saved k.procs k.current_slot save rax j);
}

-- The kernel from which the end of a system call picks.
abbrev pub saved_and_rotated : Kernel → ℕ → SyscallSaved → Kernel
saved_and_rotated k ret_val saved =
    let k2 : Kernel = record k {
      procs = set_syscall_saved k.procs k.current_slot saved ret_val;
      need_resched = false;
    } in
    if k.need_resched then rotate_runnable k2 else k2

pub saved_and_rotated-IsValid :
    (k : Kernel) (ret_val : ℕ) (saved : SyscallSaved)
    → IsValid k
    → IsValid (saved_and_rotated k ret_val saved)
saved_and_rotated-IsValid k ret_val saved v =
    let after = save-IsValid k saved ret_val false v in
    elim (Bool-cases k.need_resched) [
      | inl resched ↦ rw resched (rotate_runnable-IsValid _ after)
      | inr same ↦ rw same after
    ]

-- The end of a system call keeps the queue in step with the live processes.
pub complete_syscall_and_schedule-IsValid :
    (k : Kernel) (ret_val : ℕ) (saved : SyscallSaved)
    → IsValid k
    → IsValid (complete_syscall_and_schedule k ret_val saved).1
unfolding complete_syscall_and_schedule
complete_syscall_and_schedule-IsValid k ret_val saved v =
    pick_next_and_restore-IsValid (saved_and_rotated k ret_val saved)
      (saved_and_rotated-IsValid k ret_val saved v)

-- The kernel from which an exit picks.
abbrev pub exited : Kernel → ℕ → Kernel
exited k code = record (with_runnable k (remove (queue k) k.current_slot)) {
  procs = mark_exited k.procs k.current_slot code;
  need_resched = true;
}

pub exited-IsValid : (k : Kernel) (code : ℕ) → IsValid k → IsValid (exited k code)
exited-IsValid k code v = record {
  distinct = Distinct-remove (queue k) k.current_slot v.distinct;
  live = λ j. ground (
    arith,
    contains-remove (queue k) k.current_slot j,
    v.live j,
    alive-mark_exited k.procs k.current_slot code j,
  );
}

-- So does an exit.
pub exit_and_schedule-IsValid :
    (k : Kernel) (code : ℕ) → IsValid k → IsValid (exit_and_schedule k code).1
unfolding exit_and_schedule
exit_and_schedule-IsValid k code v =
    pick_next_and_restore-IsValid (exited k code) (exited-IsValid k code v)
