-- ===== src/Execve/Tests.antt =====
-- execve of a small program by a process whose stack holds the path.
use rockos.Prelude.{
  ℕ, ◌-◌, ◌≡◌, refl, true, false, Option, none, some, [], ◌∷◌, arith, get_or, ◌==◌, inl,
  if◌then◌else◌,
}
use rockos.Scheduler.{Kernel}
use rockos.Process.Areas.{covers_brk_heap, covers_mmap_read}
use rockos.User.{initial, user_text_base, user_region_is_readable_range}
use rockos.Fs.{errno, bytes_eq}
use rockos.Fs.Utf8.{is_utf8}
use rockos.Paging.{read_user, translate_addr}
use rockos.Bytes.{to_le_bytes, from_le_bytes}
use rockos.Elf.{ok}
use rockos.Elf.Headers.{ElfHeader, read_header}
use rockos.Elf.Loader.Reference.{AllLow}
use rockos.Elf.Exec.Clearing.{cleared_at, old_pages}
use rockos.Elf.Samples.{
  program, careful_pages, takes_frames, unmaps_frames, virt_new, virt_new-KeepsLow, machine,
  machine-Owned, image,
}
use rockos.Execve.{
  parsed, refused, ExecState, init_path, bytes_from, read_user_cstring, parse_user_ptrvec,
  parse_arguments, install, sys_execve,
}
use rockos.Execve.Strings.{read_user_cstring-Stands}
use rockos.Execve.Replaced.{Replaces, read, sys_execve-Replaces}

abbrev kernel : Kernel
kernel = record {
  procs =
      some (record {
        pid = 1;
        parent = none;
        brk_end = 0x404000;
        vm_areas = [];
        exit_code = none;
        kstack_top = 0x9000;
        save = record {
          user_rsp = 0;
          user_rip = 0;
          user_rflags = 0;
          rbx = 0;
          rbp = 0;
          r12 = 0;
          r13 = 0;
          r14 = 0;
          r15 = 0;
        };
        pending_rax = 0;
      })
      ∷ [];
  current_slot = 0;
  current_kstack_top = 0x9000;
  sched = record { runnable = 0 ∷ []; time_slice_ticks = 12; last_started_tick = 0 };
  need_resched = false;
  ticks = 3;
}

-- The path stands at the bottom of the stack page, in frame 5.
abbrev with_path : ℕ → ℕ
with_path a = get_or init_path (a - 0x5000) 0

abbrev caller : ExecState (ℕ → Option ℕ)
caller = record {
  kernel = kernel;
  program = record { machine = machine 0x400000 with_path; image = initial };
}

abbrev header : ElfHeader
header = record { e_entry = 0x400078; e_phoff = 64; e_phnum = 1; e_phentsize = 56 }

reads_header : read_header (image 0x400000) ≡ ok header
unfolding read_header to_le_bytes from_le_bytes
reads_header = refl

fits : AllLow (image 0x400000) 0 1 64
unfolding to_le_bytes from_le_bytes
fits = (λ loadable. (omega arith, omega arith), tt)

returns : (sys_execve careful_pages virt_new (image 0x400000) caller 0x401000 0 0).0 ≡ parsed 0
unfolding program sys_execve install parse_arguments parse_user_ptrvec bytes_from bytes_eq read_user
    translate_addr user_region_is_readable_range covers_brk_heap covers_mmap_read
returns = refl

sys_execve-Replaces_example :
    Replaces careful_pages virt_new
      (image 0x400000)
      caller
      0x401000
      0
      0
      header
      (cleared_at user_text_base
        (old_pages careful_pages unmaps_frames 0x401000)
        (read careful_pages virt_new (image 0x400000) caller))
      (sys_execve careful_pages virt_new (image 0x400000) caller 0x401000 0 0).1
sys_execve-Replaces_example =
    sys_execve-Replaces careful_pages virt_new (image 0x400000) virt_new-KeepsLow takes_frames
      unmaps_frames caller 0x401000 0 0 header (machine-Owned 0x400000 with_path) reads_header fits
      (omega arith) returns

-- "ab" at 0x500, in memory that may be read everywhere.
abbrev letters : ℕ → Option ℕ
letters a = if a == 0x500 then some 0x61 else if a == 0x501 then some 0x62 else some 0

read_user_cstring-Stands_example :
    read_user_cstring (λ addr len. true) letters 0x500 256
    ≡ (if is_utf8 (0x61 ∷ 0x62 ∷ []) then parsed (0x61 ∷ 0x62 ∷ []) else refused (errno 22))
read_user_cstring-Stands_example =
    read_user_cstring-Stands (λ addr len. true) letters (0x61 ∷ 0x62 ∷ []) 0x500 256
      (omega arith, refl, refl, (omega arith, refl, refl, tt)) (inl (omega arith, refl, refl))
