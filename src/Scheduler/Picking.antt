-- ===== src/Scheduler/Picking.antt =====
-- Which task runs next, and with what.
use rockos.Prelude.{
  ℕ, zero, suc, ◌≡◌, ◌≢◌, refl, sym, ap, ◌∙◌, false, Option, none, some, List, [], ◌∷◌, arith,
  if◌then◌else◌,
}
use rockos.Task.{SyscallSaved}
use rockos.Process.{ProcessTable, update_at, set_syscall_saved}
use rockos.Scheduler.{
  Kernel, Resumption, rotate, remove, rotate_runnable, pick_front, pick_next_and_restore,
  complete_syscall_and_schedule, exit_and_schedule,
}
use rockos.Scheduler.Invariant.{
  IsValid, queue, pick_next_and_restore_lem, saved_and_rotated, saved_and_rotated-IsValid, exited,
  exited-IsValid,
}

-- The first slot of a list.
abbrev pub first : List ℕ → Option ℕ
first [] = none
first (c ∷ q) = some c

abbrev pub picked : Option Resumption → Option ℕ
picked none = none
picked (some r) = some r.slot

pick_front-picked : (k : Kernel) (q : List ℕ) → picked (pick_front k q).0 ≡ first q
unfolding pick_front
pick_front-picked k [] = refl
pick_front-picked k (c ∷ q) = refl

pub pick_next_and_restore-picked :
    (k : Kernel) → IsValid k → picked (pick_next_and_restore k).0 ≡ first (queue k)
pick_next_and_restore-picked k v =
    ap (λ o. picked o.0) (pick_next_and_restore_lem k v) ∙ pick_front-picked k (queue k)

-- At the end of a system call the first slot of the queue runs next: of the rotated queue if a
-- switch was due, of the queue as it was if not.
pub complete_syscall_and_schedule-picked :
    (k : Kernel) (ret_val : ℕ) (saved : SyscallSaved)
    → IsValid k
    → picked (complete_syscall_and_schedule k ret_val saved).0
      ≡ (if k.need_resched then first (rotate (queue k)) else first (queue k))
unfolding complete_syscall_and_schedule rotate_runnable
complete_syscall_and_schedule-picked k ret_val saved v =
    pick_next_and_restore-picked (saved_and_rotated k ret_val saved)
      (saved_and_rotated-IsValid k ret_val saved v)
    ∙ ground arith

first-remove : (q : List ℕ) (slot : ℕ) → first (remove q slot) ≢ some slot
unfolding remove
first-remove [] slot = λ e. cc
first-remove (c ∷ q) slot = ground (arith, first-remove q slot)

-- After an exit the first of the other slots of the queue runs next; with no other slot in the queue
-- nothing ever does. The exited slot is not the one that runs.
pub exit_and_schedule-picked :
    (k : Kernel) (code : ℕ)
    → IsValid k
    → (picked (exit_and_schedule k code).0 ≡ first (remove (queue k) k.current_slot))
      × (picked (exit_and_schedule k code).0 ≢ some k.current_slot)
unfolding exit_and_schedule
exit_and_schedule-picked k code v =
    let e = pick_next_and_restore-picked (exited k code) (exited-IsValid k code v) in
    (e, λ h. first-remove (queue k) k.current_slot (sym e ∙ h))

-- A frame that was stored for the slot of the caller before its call ended.
set_syscall_saved_twice :
    (t : ProcessTable) (slot : ℕ) (s s' : SyscallSaved) (rax rax' : ℕ)
    → set_syscall_saved (set_syscall_saved t slot s rax) slot s' rax'
      ≡ set_syscall_saved t slot s' rax'
unfolding set_syscall_saved update_at
set_syscall_saved_twice [] slot s s' rax rax' = refl
set_syscall_saved_twice (none ∷ t) zero s s' rax rax' = refl
set_syscall_saved_twice (some p ∷ t) zero s s' rax rax' = refl
set_syscall_saved_twice (none ∷ t) (suc slot) s s' rax rax' =
    ap (λ l. none ∷ l) (set_syscall_saved_twice t slot s s' rax rax')
set_syscall_saved_twice (some p ∷ t) (suc slot) s s' rax rax' =
    ap (λ l. some p ∷ l) (set_syscall_saved_twice t slot s s' rax rax')

-- Whatever frame and result a handler stores for the calling slot, as `sys_execve` stores those of
-- the new program, the end of the same system call overwrites: the kernel goes on as if the handler
-- had stored nothing.
pub complete_syscall_and_schedule-overwrites :
    (k : Kernel) (stored : SyscallSaved) (rax ret_val : ℕ) (saved : SyscallSaved)
    → complete_syscall_and_schedule
        (record k { procs = set_syscall_saved k.procs k.current_slot stored rax })
        ret_val
        saved
      ≡ complete_syscall_and_schedule k ret_val saved
unfolding complete_syscall_and_schedule
complete_syscall_and_schedule-overwrites k stored rax ret_val saved =
    ap
      (λ t. pick_next_and_restore (
        let k2 : Kernel = record k { procs = t; need_resched = false } in
        if k.need_resched then rotate_runnable k2 else k2))
      (set_syscall_saved_twice k.procs k.current_slot stored saved rax ret_val)
