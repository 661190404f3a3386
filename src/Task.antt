-- ===== src/Task.antt =====
-- The saved system call frame of src/task.rs, and the assembly of src/syscall.rs that pushes it and
-- pops it again. Memory is a function from addresses to 64-bit words, at multiples of eight.
pub mod Frame
pub mod Resume
mod Tests
use rockos.Prelude.{ℕ, ◌+◌, ◌-◌, ◌*◌, ◌%◌, ◌^◌, ◌==◌, if◌then◌else◌}

abbrev pub Ram : Type 0
Ram = ℕ → ℕ

-- `p.write(v)`.
unfoldable pub store : Ram → ℕ → ℕ → Ram
store mem p v a = if a == p then v else mem a

pub record SyscallSaved : Type 0 where
  pub user_rsp : ℕ
  pub user_rip : ℕ
  pub user_rflags : ℕ
  pub rbx : ℕ
  pub rbp : ℕ
  pub r12 : ℕ
  pub r13 : ℕ
  pub r14 : ℕ
  pub r15 : ℕ

unfoldable pub bootstrap_user : (entry stack_top rflags : ℕ) → SyscallSaved
bootstrap_user entry stack_top rflags = record {
  user_rsp = stack_top;
  user_rip = entry;
  user_rflags = rflags;
  rbx = 0;
  rbp = 0;
  r12 = 0;
  r13 = 0;
  r14 = 0;
  r15 = 0;
}

-- `dispatch_rsp.add(i)`.
abbrev pub word_at : Ram → ℕ → ℕ → ℕ
word_at mem p i = mem (p + 8 * i)

unfoldable pub save_from_dispatch_rsp : Ram → ℕ → SyscallSaved
save_from_dispatch_rsp mem dispatch_rsp = record {
  user_rsp = word_at mem dispatch_rsp 10;
  user_rip = word_at mem dispatch_rsp 9;
  user_rflags = word_at mem dispatch_rsp 8;
  rbx = word_at mem dispatch_rsp 7;
  rbp = word_at mem dispatch_rsp 6;
  r12 = word_at mem dispatch_rsp 5;
  r13 = word_at mem dispatch_rsp 4;
  r14 = word_at mem dispatch_rsp 3;
  r15 = word_at mem dispatch_rsp 2;
}

-- `top_exclusive - 88` does not go below zero for a stack of 4096 bytes.
unfoldable pub restore_to_kstack : Ram → ℕ → SyscallSaved → ℕ → Ram
restore_to_kstack m0 top_exclusive s ret_to_kernel =
    let p = top_exclusive - 88 in
    let m1 = store m0 p ret_to_kernel in
    let m2 = store m1 (p + 8 * 1) 0 in
    let m3 = store m2 (p + 8 * 2) s.r15 in
    let m4 = store m3 (p + 8 * 3) s.r14 in
    let m5 = store m4 (p + 8 * 4) s.r13 in
    let m6 = store m5 (p + 8 * 5) s.r12 in
    let m7 = store m6 (p + 8 * 6) s.rbp in
    let m8 = store m7 (p + 8 * 7) s.rbx in
    let m9 = store m8 (p + 8 * 8) s.user_rflags in
    let m10 = store m9 (p + 8 * 9) s.user_rip in store m10 (p + 8 * 10) s.user_rsp

-- The registers that the assembly names. `rip` and `rflags` are those of user mode: `syscall` has
-- put them into rcx and r11, and `sysretq` takes them from there.
pub record Machine : Type 0 where
  pub rax : ℕ
  pub rdi : ℕ
  pub rsi : ℕ
  pub rdx : ℕ
  pub rcx : ℕ
  pub r8 : ℕ
  pub r9 : ℕ
  pub r10 : ℕ
  pub r11 : ℕ
  pub rbx : ℕ
  pub rbp : ℕ
  pub r12 : ℕ
  pub r13 : ℕ
  pub r14 : ℕ
  pub r15 : ℕ
  pub rsp : ℕ
  pub mem : Ram

unfoldable pub push : ℕ → Machine → Machine
unfolding store
push v m = record m { rsp = m.rsp - 8; mem = store m.mem (m.rsp - 8) v }

-- `syscall_entry` up to `call syscall_dispatch`: the user's rsp, rcx and r11 and the callee-saved
-- registers go onto the kernel stack of the current task, and the arguments into place. The static
-- SYSCALL_USER_RSP_STASH only carries the user's rsp to the first push.
unfoldable pub syscall_entry : (current_kstack_top : ℕ) → Machine → Machine
unfolding push
syscall_entry current_kstack_top m =
    let stash = m.rsp in
    let m1 = record m { r14 = current_kstack_top; rsp = current_kstack_top } in
    let m2 = push stash m1 in
    let m3 = push m2.rcx m2 in
    let m4 = push m3.r11 m3 in
    let m5 = push m4.rbx m4 in
    let m6 = push m5.rbp m5 in
    let m7 = push m6.r12 m6 in
    let m8 = push m7.r13 m7 in
    let m9 = push m8.r14 m8 in
    let m10 = push m9.r15 m9 in
    record m10 {
      rsp = m10.rsp - 8;
      r9 = m10.rax;
      r8 = m10.rdi;
      r10 = m10.rsi;
      rdi = m10.rax;
      rsi = m10.rdi;
      rdx = m10.rsi;
      rcx = m10.rdx;
      r11 = m10.rdx;
    }

-- `syscall_user_return`: `add rsp, 8`, nine pops, `sysretq`.
unfoldable pub syscall_user_return : Machine → Machine
syscall_user_return m =
    let p = m.rsp + 8 in
    record m {
      r15 = word_at m.mem p 0;
      r14 = word_at m.mem p 1;
      r13 = word_at m.mem p 2;
      r12 = word_at m.mem p 3;
      rbp = word_at m.mem p 4;
      rbx = word_at m.mem p 5;
      r11 = word_at m.mem p 6;
      rcx = word_at m.mem p 7;
      rsp = word_at m.mem p 8;
    }

-- The end of `pick_next_and_restore`: the frame is written below the top of the task's kernel stack
-- and `syscall_user_return` pops it.
unfoldable pub resume : (top : ℕ) → SyscallSaved → (rax ret_to : ℕ) → Machine → Machine
unfolding restore_to_kstack syscall_user_return
resume top saved rax ret_to m =
    syscall_user_return
      (record m { mem = restore_to_kstack m.mem top saved ret_to; rsp = top - 88; rax = rax })

-- A system call whose task is resumed at once. `mem'` is the memory that the handler leaves. The
-- assembly passes its rsp, after `call syscall_dispatch` has returned, to `syscall_tail` as
-- `dispatch_rsp`.
unfoldable pub syscall_round_trip : (top : ℕ) → Machine → (mem' : Ram) → (rax ret_to : ℕ) → Machine
unfolding syscall_entry resume save_from_dispatch_rsp
syscall_round_trip top m mem' rax ret_to =
    let e = syscall_entry top m in
    resume top (save_from_dispatch_rsp mem' e.rsp) rax ret_to (record e { mem = mem' })
