-- ===== src/Syscall/Wait4.antt =====
-- Which children `wait4` takes from the table, and what it tells of them.
use rockos.Prelude.{ℕ, ◌≡◌, ◌≢◌, ◌∙◌, ap, false, Option, none, some, arith, set}
use rockos.Process.{Process, ProcessTable, process_at, wait_reap}
use rockos.Process.Reaping.{wait_reap-some}
use rockos.User.{UserImage, user_region_is_writable_range}
use rockos.Fs.{errno}
use rockos.Syscall.{report, sys_wait4}

report-fault :
    (u : UserImage) (t : ProcessTable) (current_slot wstatus child st : ℕ)
    → wstatus ≢ 0
    → user_region_is_writable_range u t current_slot wstatus 4 ≡ false
    → report u t current_slot wstatus (some (child, st)) ≡ record { ret = errno 14; written = none }
unfolding report
report-fault u t current_slot wstatus child st some_address refused = rw refused (ground arith)

sys_wait4-wait_reap :
    (u : UserImage) (t : ProcessTable) (current_slot pid wstatus : ℕ) (reaped : Option (ℕ × ℕ))
    (t' : ProcessTable)
    → wait_reap t current_slot pid ≡ (reaped, t')
    → sys_wait4 u t current_slot pid wstatus ≡ (report u t' current_slot wstatus reaped, t')
unfolding sys_wait4
sys_wait4-wait_reap u t current_slot pid wstatus reaped t' e =
    ap (λ r. (report u r.1 current_slot wstatus r.0, r.1)) e

-- `wait4` with a status address that the caller may not write answers EFAULT, and the child that it
-- found is gone all the same: it was in the table with its exit code, its slot is now empty, and
-- the code has been written nowhere.
pub sys_wait4_loses_child :
    (u : UserImage) (t : ProcessTable) (current_slot pid wstatus : ℕ) {child st : ℕ}
    {t' : ProcessTable}
    → wait_reap t current_slot pid ≡ (some (child, st), t')
    → wstatus ≢ 0
    → user_region_is_writable_range u t' current_slot wstatus 4 ≡ false
    → (sys_wait4 u t current_slot pid wstatus ≡ (record { ret = errno 14; written = none }, t'))
      × (slot : ℕ) × (p : Process) × (process_at t slot ≡ some p)
      × (p.exit_code ≡ some st)
      × (t' ≡ set t slot none)
sys_wait4_loses_child u t current_slot pid wstatus {child} {st} {t'} e some_address refused =
    let (slot, p, there, reaped_pid, exited, of_me, fits, emptied) =
      wait_reap-some t current_slot pid e in
    (
      sys_wait4-wait_reap u t current_slot pid wstatus (some (child, st)) t' e
          ∙ ap (λ r. (r, t'))
              (report-fault u t' current_slot wstatus child st some_address refused),
      slot,
      p,
      there,
      exited,
      emptied,
    )
