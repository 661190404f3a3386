-- ===== src/Task/Resume.antt =====
-- What a user task keeps across a system call, and what a task that starts from a built frame gets.
use rockos.Prelude.{ℕ, ◌+◌, ◌-◌, ◌*◌, ◌≤◌, ◌<◌, ◌≡◌, ◌∙◌, arith}
use rockos.Task.{
  Ram, Machine, bootstrap_user, syscall_entry, save_from_dispatch_rsp, resume, syscall_round_trip,
}
use rockos.Task.Frame.{resume_lem, syscall_entry_lem}

-- A system call whose handler leaves the ten words of its frame as the entry pushed them, and whose
-- task is resumed at once, gives user mode its rsp, rip (rcx), rflags (r11), rbx, rbp, r12 and r13
-- back and the result in rax. It leaves the top of the kernel stack in r14 and zero in r15.
pub syscall_round_trip_lem :
    (top : ℕ) (m : Machine) (mem' : Ram) (rax ret_to : ℕ)
    → 88 ≤ top
    → ((a : ℕ) → top - 80 ≤ a → a < top → mem' a ≡ (syscall_entry top m).mem a)
    → let m' = syscall_round_trip top m mem' rax ret_to in
      (m'.rsp ≡ m.rsp)
      × (m'.rcx ≡ m.rcx)
      × (m'.r11 ≡ m.r11)
      × (m'.rbx ≡ m.rbx)
      × (m'.rbp ≡ m.rbp)
      × (m'.r12 ≡ m.r12)
      × (m'.r13 ≡ m.r13)
      × (m'.rax ≡ rax)
      × (m'.r14 ≡ top)
      × (m'.r15 ≡ 0)
unfolding syscall_round_trip
syscall_round_trip_lem top m mem' rax ret_to h same =
    let e : Machine = syscall_entry top m in
    let f = syscall_entry_lem top m h in
    let r =
      resume_lem top (save_from_dispatch_rsp mem' e.rsp) rax ret_to (record e { mem = mem' }) h in
    (
      r.0 ∙ same (e.rsp + 8 * 9) (omega (arith, f.0)) (omega (arith, f.0)) ∙ f.1,
      r.1 ∙ same (e.rsp + 8 * 8) (omega (arith, f.0)) (omega (arith, f.0)) ∙ f.2,
      r.2 ∙ same (e.rsp + 8 * 7) (omega (arith, f.0)) (omega (arith, f.0)) ∙ f.3,
      r.3 ∙ same (e.rsp + 8 * 6) (omega (arith, f.0)) (omega (arith, f.0)) ∙ f.4,
      r.4 ∙ same (e.rsp + 8 * 5) (omega (arith, f.0)) (omega (arith, f.0)) ∙ f.5,
      r.5 ∙ same (e.rsp + 8 * 4) (omega (arith, f.0)) (omega (arith, f.0)) ∙ f.6,
      r.6 ∙ same (e.rsp + 8 * 3) (omega (arith, f.0)) (omega (arith, f.0)) ∙ f.7,
      r.9,
      r.7 ∙ same (e.rsp + 8 * 2) (omega (arith, f.0)) (omega (arith, f.0)) ∙ f.8,
      r.8,
    )

-- A task that is resumed from a frame built by `bootstrap_user` enters user mode with the flags
-- word as its instruction pointer, the entry point as its stack pointer and zero flags: nothing of
-- the three values arrives where it belongs.
pub resume-bootstrap_user :
    (top entry stack_top rflags rax ret_to : ℕ) (m : Machine)
    → 88 ≤ top
    → let m' = resume top (bootstrap_user entry stack_top rflags) rax ret_to m in
      (m'.rcx ≡ rflags) × (m'.rsp ≡ entry) × (m'.r11 ≡ 0)
unfolding bootstrap_user
resume-bootstrap_user top entry stack_top rflags rax ret_to m h =
    let r = resume_lem top (bootstrap_user entry stack_top rflags) rax ret_to m h in (r.1, r.0, r.2)
