-- ===== src/Process.antt =====
-- The process table of src/process.rs. A slot of the table holds a process or nothing; the global
-- `Mutex<Option<ProcessTable>>` is the table that `init` builds, since every call comes later. The
-- kernel stack of a process enters by the address of its top, which the kernel heap chooses.
pub mod Pid
pub mod Reaping
pub mod Slots
pub mod Areas
mod Tests
use rockos.Prelude.{
  ℕ, zero, suc, ◌+◌, ◌-◌, ◌^◌, Bool, true, false, not, ◌&&◌, ◌||◌, Option, none, some, List, [],
  ◌∷◌, ◌++◌, length, get_or, set, replicate, ltb, leb, ◌==◌, if◌then◌else◌,
}
use rockos.Task.{SyscallSaved, bootstrap_user}

abbrev pub user_brk_base : ℕ
user_brk_base = 0x404000

abbrev pub user_brk_limit : ℕ
user_brk_limit = 0x410000

abbrev pub user_mmap_base : ℕ
user_mmap_base = 0x410000

abbrev pub user_mmap_limit : ℕ
user_mmap_limit = 0x480000

abbrev pub user_stack_top : ℕ
user_stack_top = 0x402000

abbrev pub max_procs : ℕ
max_procs = 32

pub record VmArea : Type 0 where
  pub id : ℕ
  pub virt_start : ℕ
  pub pages : ℕ
  pub writable : Bool
  pub executable : Bool

-- `exit_code` is the bit pattern of an i32.
pub record Process : Type 0 where
  pub pid : ℕ
  pub parent : Option ℕ
  pub brk_end : ℕ
  pub vm_areas : List VmArea
  pub exit_code : Option ℕ
  pub kstack_top : ℕ
  pub save : SyscallSaved
  pub pending_rax : ℕ

abbrev pub ProcessTable : Type 0
ProcessTable = List (Option Process)

-- `Process::new`.
unfoldable pub new : (kstack_top pid : ℕ) → (parent : Option ℕ) → SyscallSaved → Process
new kstack_top pid parent bootstrap = record {
  pid = pid;
  parent = parent;
  brk_end = user_brk_base;
  vm_areas = [];
  exit_code = none;
  kstack_top = kstack_top;
  save = bootstrap;
  pending_rax = 0;
}

-- The table of `init`; `entry` is USER_ENTRY_RIP.
unfoldable pub init : (kstack_top entry : ℕ) → ProcessTable
unfolding new bootstrap_user
init kstack_top entry =
    set (replicate max_procs none) 0
      (some (new kstack_top 1 none (bootstrap_user entry user_stack_top 0x202)))

-- The process in a slot; a slot past the end has none.
abbrev pub process_at : ProcessTable → ℕ → Option Process
process_at t slot = get_or t slot none

unfoldable pub first_empty : ℕ → ProcessTable → Option ℕ
first_empty i [] = none
first_empty i (none ∷ t) = some i
first_empty i (some p ∷ t) = first_empty (i + 1) t

unfoldable pub alloc_slot : ProcessTable → Option ℕ × ProcessTable
alloc_slot t = elim (first_empty 0 t) [
  | some i ↦ (some i, t)
  | none ↦ if ltb (length t) max_procs then (some (length t), t ++ none ∷ []) else (none, t)
]

-- `with_slot` and `current_pid`: the init process's pid stands in for a missing one.
unfoldable pub current_pid : ProcessTable → (current_slot : ℕ) → ℕ
current_pid t current_slot = elim (process_at t current_slot) [ some p ↦ p.pid | none ↦ 1 ]

unfoldable pub current_ppid : ProcessTable → (current_slot : ℕ) → Option ℕ
current_ppid t current_slot = elim (process_at t current_slot) [ some p ↦ p.parent | none ↦ none ]

-- `procs.get_mut(slot)` with a change to the process there.
unfoldable pub update_at : ProcessTable → ℕ → (Process → Process) → ProcessTable
update_at [] slot f = []
update_at (none ∷ t) zero f = none ∷ t
update_at (some p ∷ t) zero f = some (f p) ∷ t
update_at (o ∷ t) (suc slot) f = o ∷ update_at t slot f

unfoldable pub set_syscall_saved : ProcessTable → ℕ → SyscallSaved → ℕ → ProcessTable
set_syscall_saved t slot save pending_rax =
    update_at t slot (λ p. record p { save = save; pending_rax = pending_rax })

unfoldable pub mark_exited : ProcessTable → (current_slot status : ℕ) → ProcessTable
mark_exited t current_slot status =
    update_at t current_slot (λ p. record p { exit_code = some status })

unfoldable pub kstack_top_for_slot : ProcessTable → (slot current_kstack_top : ℕ) → ℕ
kstack_top_for_slot t slot current_kstack_top = elim (process_at t slot) [
  | some p ↦ p.kstack_top
  | none ↦ current_kstack_top
]

-- `none` is the panic of `expect("saved")`.
unfoldable pub syscall_saved_for_slot : ProcessTable → ℕ → Option SyscallSaved
syscall_saved_for_slot t slot = elim (process_at t slot) [ some p ↦ some p.save | none ↦ none ]

unfoldable pub pending_rax_for_slot : ProcessTable → ℕ → ℕ
pending_rax_for_slot t slot = elim (process_at t slot) [ some p ↦ p.pending_rax | none ↦ 0 ]

abbrev pub is_running : Process → Bool
is_running p = elim p.exit_code [ none ↦ true | some code ↦ false ]

unfoldable pub slot_is_alive_runnable : ProcessTable → ℕ → Bool
slot_is_alive_runnable t slot = elim (process_at t slot) [ some p ↦ is_running p | none ↦ false ]

-- Some process of the table has the pid.
unfoldable pub pid_used : ProcessTable → ℕ → Bool
pid_used [] cand = false
pid_used (none ∷ t) cand = pid_used t cand
pid_used (some p ∷ t) cand = p.pid == cand || pid_used t cand

-- The loop of `alloc_pid` over `n` candidates from `cand` on.
unfoldable pub alloc_pid_from : ProcessTable → (n cand : ℕ) → Option ℕ
alloc_pid_from t zero cand = none
alloc_pid_from t (suc n) cand =
    let rest = alloc_pid_from t n (cand + 1) in if pid_used t cand then rest else some cand

unfoldable pub alloc_pid : ProcessTable → Option ℕ
alloc_pid t = alloc_pid_from t (1024 - 2) 2

abbrev pub has_parent : Process → ℕ → Bool
has_parent p me = elim p.parent [ some q ↦ q == me | none ↦ false ]

-- `target` is the bit pattern of an i64: negative from 2 ^ 63 on.
abbrev pub is_target : ℕ → ℕ → Bool
is_target target pid = not (ltb target (2 ^ 63) && not (pid == target))

-- The loop of `wait_reap`: the pid and exit code of the reaped child, and the slots afterwards. The
-- `?` at a child without exit code leaves the whole closure.
unfoldable pub reap_from : (me target : ℕ) → ProcessTable → Option (ℕ × ℕ) × ProcessTable
reap_from me target [] = (none, [])
reap_from me target (none ∷ t) = let rest = reap_from me target t in (rest.0, none ∷ rest.1)
reap_from me target (some p ∷ t) =
    let rest = reap_from me target t in
    if has_parent p me
    then elim p.exit_code [
      | none ↦ (none, some p ∷ t)
      | some code ↦
          if is_target target p.pid
          then (some (p.pid, code), none ∷ t)
          else (rest.0, some p ∷ rest.1)
    ]
    else (rest.0, some p ∷ rest.1)

unfoldable pub wait_reap : ProcessTable → (current_slot target : ℕ) → Option (ℕ × ℕ) × ProcessTable
wait_reap t current_slot target = reap_from (current_pid t current_slot) target t
