-- ===== src/Task/Frame.antt =====
-- Reads of the words that `restore_to_kstack` and `syscall_entry` write.
use rockos.Prelude.{ℕ, ◌+◌, ◌-◌, ◌*◌, ◌≤◌, ◌≡◌, arith}
use rockos.Task.{
  Ram, store, SyscallSaved, Machine, restore_to_kstack, syscall_entry, resume,
  save_from_dispatch_rsp,
}

-- The frame that `restore_to_kstack` writes is read back whole by `save_from_dispatch_rsp` at the
-- address of its first word.
pub save_from_dispatch_rsp-restore_to_kstack :
    (mem : Ram) (top : ℕ) (s : SyscallSaved) (ret_to : ℕ)
    → 88 ≤ top
    → save_from_dispatch_rsp (restore_to_kstack mem top s ret_to) (top - 88) ≡ s
unfolding save_from_dispatch_rsp restore_to_kstack store
save_from_dispatch_rsp-restore_to_kstack mem top s ret_to h = ground arith

-- What user mode finds in the registers after `resume`.
pub resume_lem :
    (top : ℕ) (s : SyscallSaved) (rax ret_to : ℕ) (m : Machine)
    → 88 ≤ top
    → let m' = resume top s rax ret_to m in
      (m'.rsp ≡ s.user_rip)
      × (m'.rcx ≡ s.user_rflags)
      × (m'.r11 ≡ s.rbx)
      × (m'.rbx ≡ s.rbp)
      × (m'.rbp ≡ s.r12)
      × (m'.r12 ≡ s.r13)
      × (m'.r13 ≡ s.r14)
      × (m'.r14 ≡ s.r15)
      × (m'.r15 ≡ 0)
      × (m'.rax ≡ rax)
unfolding resume store
resume_lem top s rax ret_to m h = ground arith

-- The words that `syscall_entry` leaves below the top of the kernel stack.
pub syscall_entry_lem :
    (top : ℕ) (m : Machine)
    → 88 ≤ top
    → let e = syscall_entry top m in
      (e.rsp + 80 ≡ top)
      × (e.mem (e.rsp + 8 * 9) ≡ m.rsp)
      × (e.mem (e.rsp + 8 * 8) ≡ m.rcx)
      × (e.mem (e.rsp + 8 * 7) ≡ m.r11)
      × (e.mem (e.rsp + 8 * 6) ≡ m.rbx)
      × (e.mem (e.rsp + 8 * 5) ≡ m.rbp)
      × (e.mem (e.rsp + 8 * 4) ≡ m.r12)
      × (e.mem (e.rsp + 8 * 3) ≡ m.r13)
      × (e.mem (e.rsp + 8 * 2) ≡ top)
      × (e.mem (e.rsp + 8 * 1) ≡ m.r15)
unfolding syscall_entry store
syscall_entry_lem top m h = ground arith
