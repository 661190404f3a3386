-- ===== src/Syscall.antt =====
-- The system call `wait4` of src/syscall.rs.
pub mod Wait4
pub mod Sleep
mod Tests
use rockos.Prelude.{
  ℕ, ◌-◌, ◌^◌, Bool, true, false, not, Option, none, some, List, ◌==◌, if◌then◌else◌,
}
use rockos.Process.{ProcessTable, wait_reap}
use rockos.User.{UserImage, user_region_is_writable_range}
use rockos.Fs.{errno}

-- The returned word, and the write to user memory: its address and the i32 written.
pub record Wait4Result : Type 0 where
  pub ret : ℕ
  pub written : Option (ℕ × ℕ)

-- What `wait4` does with the child that was reaped, its exit code the bit pattern of an i32.
unfoldable pub report :
    UserImage → ProcessTable → (current_slot wstatus : ℕ) → Option (ℕ × ℕ) → Wait4Result
report u t current_slot wstatus none = record { ret = errno 11; written = none }
report u t current_slot wstatus (some (child, st)) =
    if wstatus == 0
    then record { ret = child; written = none }
    else if not (user_region_is_writable_range u t current_slot wstatus 4)
    then record { ret = errno 14; written = none }
    else record { ret = child; written = some (wstatus, st) }

-- `pid` is the bit pattern of an i64.
unfoldable pub sys_wait4 :
    UserImage → ProcessTable → (current_slot pid wstatus : ℕ) → Wait4Result × ProcessTable
unfolding report
sys_wait4 u t current_slot pid wstatus =
    let (reaped, t') = wait_reap t current_slot pid in (report u t' current_slot wstatus reaped, t')
