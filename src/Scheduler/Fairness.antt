-- ===== src/Scheduler/Fairness.antt =====
-- Tasks that yield in turn: each waiting task runs once, in queue order.
use mathlib.Core.List.{map, append_assoc, append-nil}
use rockos.Prelude.{
  ℕ, ◌≡◌, refl, sym, ap, ap₂, ◌∙◌, Option, some, List, [], ◌∷◌, ◌++◌, arith, length,
}
use rockos.Task.{SyscallSaved}
use rockos.Scheduler.{Kernel, rotate, rotate_runnable, pick_front, note_yield, sched_yield}
use rockos.Scheduler.Invariant.{
  IsValid, queue, pick_next_and_restore_lem, saved_and_rotated, saved_and_rotated-IsValid,
  complete_syscall_and_schedule-IsValid,
}
use rockos.Scheduler.Picking.{first, picked, complete_syscall_and_schedule-picked}

-- The tasks that run next, as each one that runs yields at once, with the frames they save.
unfoldable pub yields : Kernel → List SyscallSaved → List (Option ℕ)
yields k [] = []
yields k (saved ∷ more) = let (next, k') = sched_yield k saved in picked next ∷ yields k' more

note_yield-IsValid : (k : Kernel) → IsValid k → IsValid (note_yield k)
unfolding note_yield
note_yield-IsValid k v = record { distinct = v.distinct; live = v.live }

pub sched_yield-IsValid :
    (k : Kernel) (saved : SyscallSaved) → IsValid k → IsValid (sched_yield k saved).1
unfolding sched_yield
sched_yield-IsValid k saved v =
    complete_syscall_and_schedule-IsValid (note_yield k) 0 saved (note_yield-IsValid k v)

queue-pick_front : (k : Kernel) (q : List ℕ) → queue (pick_front k q).1 ≡ q
unfolding pick_front
queue-pick_front k [] = refl
queue-pick_front k (c ∷ q) = refl

queue-sched_yield :
    (k : Kernel) (saved : SyscallSaved)
    → IsValid k
    → queue (sched_yield k saved).1 ≡ rotate (queue k)
unfolding sched_yield rotate_runnable
queue-sched_yield k saved v =
    let k' = saved_and_rotated (note_yield k) 0 saved in
    let v' = saved_and_rotated-IsValid (note_yield k) 0 saved (note_yield-IsValid k v) in
    ap (λ o. queue o.1) (pick_next_and_restore_lem k' v') ∙ queue-pick_front k' (queue k')

picked-sched_yield :
    (k : Kernel) (saved : SyscallSaved)
    → IsValid k
    → picked (sched_yield k saved).0 ≡ first (rotate (queue k))
unfolding sched_yield
picked-sched_yield k saved v =
    complete_syscall_and_schedule-picked (note_yield k) 0 saved (note_yield-IsValid k v)

turn :
    (c x : ℕ) (xs behind q : List ℕ)
    → q ≡ c ∷ (x ∷ xs ++ behind)
    → rotate q ≡ x ∷ (xs ++ (behind ++ c ∷ []))
unfolding rotate
turn c x xs behind q e = ap rotate e ∙ ap (λ l. x ∷ l) (append_assoc xs behind (c ∷ []))

-- Behind the running task `c` wait `xs`, then `behind`.
yields_from :
    (k : Kernel) (saves : List SyscallSaved) (c : ℕ) (xs behind : List ℕ)
    → IsValid k
    → queue k ≡ c ∷ (xs ++ behind)
    → length saves ≡ length xs
    → yields k saves ≡ map some xs
unfolding yields
yields_from k [] c [] behind v e h = refl
yields_from k [] c (x ∷ xs) behind v e h = absurd (omega arith)
yields_from k (saved ∷ more) c [] behind v e h = absurd (omega arith)
yields_from k (saved ∷ more) c (x ∷ xs) behind v e h =
    let next = queue-sched_yield k saved v ∙ turn c x xs behind (queue k) e in
    ap₂ ◌∷◌ (picked-sched_yield k saved v ∙ ap first (turn c x xs behind (queue k) e)) (
      yields_from (sched_yield k saved).1 more x xs (behind ++ c ∷ [])
        (sched_yield-IsValid k saved v) next (omega arith))

-- Round robin: where the queue holds the running task and then `xs`, and each task that runs yields
-- at once, the next tasks to run are those of `xs` in their order, whatever frames they save.
pub yields_round_robin :
    (k : Kernel) (saves : List SyscallSaved) (c : ℕ) (xs : List ℕ)
    → IsValid k
    → queue k ≡ c ∷ xs
    → length saves ≡ length xs
    → yields k saves ≡ map some xs
yields_round_robin k saves c xs v e h =
    yields_from k saves c xs [] v (e ∙ ap (λ l. c ∷ l) (sym (append-nil xs))) h
