-- ===== src/Process/Tests.antt =====
-- The process table at a small input.
use rockos.Prelude.{
  ℕ, zero, suc, ◌-◌, ◌≤◌, ◌<◌, ◌≡◌, ◌≢◌, refl, ◌^◌, true, false, Option, none, some, [], ◌∷◌, arith,
  set,
}
use rockos.Process.{
  Process, ProcessTable, process_at, has_parent, is_target, alloc_slot, first_empty, alloc_pid,
  alloc_pid_from, pid_used, current_pid, reap_from, wait_reap,
}
use rockos.Process.Pid.{alloc_pid_total}
use rockos.Process.Reaping.{
  reapable, running_child, wait_reap-some, wait_reap_blocked, wait_reap_finds,
}

abbrev idle : Process
idle = record {
  pid = 1;
  parent = none;
  brk_end = 0x404000;
  vm_areas = [];
  exit_code = none;
  kstack_top = 0x9000;
  save = record {
    user_rsp = 0;
    user_rip = 0;
    user_rflags = 0;
    rbx = 0;
    rbp = 0;
    r12 = 0;
    r13 = 0;
    r14 = 0;
    r15 = 0;
  };
  pending_rax = 0;
}

abbrev child : ℕ → Option ℕ → Option Process
child pid exit_code = some (record idle { pid = pid; parent = some 1; exit_code = exit_code })

-- The init process, a child that runs, and one that has exited with 7.
abbrev pub family : ProcessTable
family = some idle ∷ child 2 none ∷ child 3 (some 7) ∷ none ∷ []

-- The same after the second child has exited too.
abbrev pub orphans : ProcessTable
orphans = some idle ∷ child 2 (some 0) ∷ child 3 (some 7) ∷ none ∷ []

abbrev any_child : ℕ
any_child = 2 ^ 64 - 1

program : Unit {0}
unfolding current_pid wait_reap reap_from alloc_pid alloc_pid_from pid_used alloc_slot first_empty
program = tt

reaps_first : (wait_reap orphans 0 any_child).0 ≡ some (2, 0)
unfolding program
reaps_first = refl

reaps_target :
    wait_reap orphans 0 3 ≡ (some (3, 7), some idle ∷ child 2 (some 0) ∷ none ∷ none ∷ [])
unfolding program
reaps_target = refl

next_pid : (alloc_pid family ≡ some 4) × ((alloc_slot family).0 ≡ some 3)
unfolding program
next_pid = (refl, refl)

alloc_pid_total_example :
    (pid : ℕ) × (alloc_pid family ≡ some pid)
    × (2 ≤ pid)
    × (pid < 1024)
    × (pid_used family pid ≡ false)
alloc_pid_total_example = alloc_pid_total family (omega arith)

wait_reap-some_example :
    (slot : ℕ) × (reaped : Process) × (process_at orphans slot ≡ some reaped)
    × (reaped.pid ≡ 3)
    × (reaped.exit_code ≡ some 7)
    × (has_parent reaped (current_pid orphans 0) ≡ true)
    × (is_target 3 3 ≡ true)
    × ((some idle ∷ child 2 (some 0) ∷ none ∷ none ∷ []) ≡ set orphans slot none)
wait_reap-some_example = wait_reap-some orphans 0 3 reaps_target

none_before :
    (i : ℕ) → i < 1 → reapable (current_pid family 0) any_child (process_at family i) ≡ false
unfolding program
none_before zero h = refl
none_before (suc i) h = absurd (omega arith)

-- The exited child in slot 2 is not found.
wait_reap_blocked_example : wait_reap family 0 any_child ≡ (none, family)
unfolding program
wait_reap_blocked_example = wait_reap_blocked family 0 any_child 1 none_before refl

none_running : (i : ℕ) → running_child (current_pid orphans 0) (process_at orphans i) ≡ false
unfolding program
none_running zero = refl
none_running (suc zero) = refl
none_running (suc (suc zero)) = refl
none_running (suc (suc (suc zero))) = refl
none_running (suc (suc (suc (suc i)))) = refl

wait_reap_finds_example : (wait_reap orphans 0 any_child).0 ≢ none
unfolding program
wait_reap_finds_example = wait_reap_finds orphans 0 any_child 1 none_running refl
