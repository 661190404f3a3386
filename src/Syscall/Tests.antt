-- ===== src/Syscall/Tests.antt =====
-- Waiting for a child that has exited with 7.
use rockos.Prelude.{
  ℕ, ◌+◌, ◌*◌, ◌≤◌, ◌<◌, ◌≡◌, refl, Option, none, some, [], ◌∷◌, arith, set, ◌==◌, if◌then◌else◌,
}
use rockos.Process.{Process, ProcessTable, process_at, wait_reap, reap_from, current_pid}
use rockos.Process.Areas.{covers_brk_heap, covers_mmap_write, covered}
use rockos.User.{initial, user_region_is_writable_range}
use rockos.Fs.{errno}
use rockos.Syscall.{sys_wait4, report}
use rockos.Syscall.Sleep.{plus, sleep_ticks, sleep_ticks-bounds}
use rockos.Syscall.Wait4.{sys_wait4_loses_child}

abbrev process : (pid : ℕ) → (parent exit_code : Option ℕ) → Option Process
process pid parent exit_code = some (record {
  pid = pid;
  parent = parent;
  brk_end = 0x404000;
  vm_areas = [];
  exit_code = exit_code;
  kstack_top = 0x9000;
  save = record {
    user_rsp = 0;
    user_rip = 0;
    user_rflags = 0;
    rbx = 0;
    rbp = 0;
    r12 = 0;
    r13 = 0;
    r14 = 0;
    r15 = 0;
  };
  pending_rax = 0;
})

abbrev pair : ProcessTable
pair = process 1 none none ∷ process 2 (some 1) (some 7) ∷ []

abbrev alone : ProcessTable
alone = process 1 none none ∷ none ∷ []

program : Unit {0}
unfolding sys_wait4 report wait_reap reap_from current_pid user_region_is_writable_range
    covers_brk_heap covers_mmap_write covered
program = tt

reports :
    sys_wait4 initial pair 0 2 0x401100 ≡ (record { ret = 2; written = some (0x401100, 7) }, alone)
unfolding program
reports = refl

sys_wait4_loses_child_example :
    (sys_wait4 initial pair 0 2 0x1000 ≡ (record { ret = errno 14; written = none }, alone))
    × (slot : ℕ) × (p : Process) × (process_at pair slot ≡ some p)
    × (p.exit_code ≡ some 7)
    × (alone ≡ set pair slot none)
unfolding program
sys_wait4_loses_child_example =
    sys_wait4_loses_child initial pair 0 2 0x1000 refl (λ e. omega arith) refl

-- A sleep of 12.345 seconds.
sleep_ticks-bounds_example :
    (n : ℕ) × (sleep_ticks (plus 12) (plus 345000000) ≡ some (if n == 0 then 1 else n))
    × (n * 10000000 ≤ 12 * 1000000000 + 345000000)
    × (12 * 1000000000 + 345000000 < (n + 1) * 10000000)
sleep_ticks-bounds_example = sleep_ticks-bounds 12 345000000 (omega arith) (omega arith)
