-- ===== src/Task/Tests.antt =====
-- The saved frame at a concrete machine.
use rockos.Prelude.{◌≡◌, refl, arith}
use rockos.Task.{
  Ram, Machine, SyscallSaved, bootstrap_user, syscall_entry, resume, syscall_round_trip,
}
use rockos.Task.Resume.{syscall_round_trip_lem, resume-bootstrap_user}

abbrev blank : Ram
blank a = 0

abbrev user : Machine
user = record {
  rax = 24;
  rdi = 0;
  rsi = 0;
  rdx = 0;
  rcx = 0x400010;
  r8 = 0;
  r9 = 0;
  r10 = 0;
  r11 = 0x202;
  rbx = 1;
  rbp = 2;
  r12 = 3;
  r13 = 4;
  r14 = 5;
  r15 = 6;
  rsp = 0x401ff0;
  mem = blank;
}

abbrev frame : SyscallSaved
frame = record {
  user_rsp = 1;
  user_rip = 2;
  user_rflags = 3;
  rbx = 4;
  rbp = 5;
  r12 = 6;
  r13 = 7;
  r14 = 8;
  r15 = 9;
}

-- r14 and r15 do not come back.
r14_r15_lost :
    let m = syscall_round_trip 0x9000 user (syscall_entry 0x9000 user).mem 0 0 in
    (m.r14 ≡ 0x9000) × (m.r15 ≡ 0)
unfolding syscall_round_trip
r14_r15_lost = (refl, refl)

syscall_round_trip_lem_example :
    let m' = syscall_round_trip 0x9000 user (syscall_entry 0x9000 user).mem 0 0 in
    (m'.rsp ≡ 0x401ff0)
    × (m'.rcx ≡ 0x400010)
    × (m'.r11 ≡ 0x202)
    × (m'.rbx ≡ 1)
    × (m'.rbp ≡ 2)
    × (m'.r12 ≡ 3)
    × (m'.r13 ≡ 4)
    × (m'.rax ≡ 0)
    × (m'.r14 ≡ 0x9000)
    × (m'.r15 ≡ 0)
syscall_round_trip_lem_example =
    syscall_round_trip_lem 0x9000 user (syscall_entry 0x9000 user).mem 0 0 (omega arith)
      (λ a lo hi. refl)

resume-bootstrap_user_example :
    let m' = resume 0x9000 (bootstrap_user 0x400000 0x402000 0x202) 0 0 user in
    (m'.rcx ≡ 0x202) × (m'.rsp ≡ 0x400000) × (m'.r11 ≡ 0)
resume-bootstrap_user_example =
    resume-bootstrap_user 0x9000 0x400000 0x402000 0x202 0 0 user (omega arith)
