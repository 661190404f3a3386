-- ===== src/Execve/Replaced.antt =====
-- A successful `sys_execve` of src/process.rs: what the caller's slot and user memory hold.
use rockos.Prelude.{ℕ, ◌^◌, ◌≤◌, ◌≡◌, ◌∙◌, refl, sym, ap, Bool, Option, some, List, arith}
use rockos.Task.{SyscallSaved, bootstrap_user}
use rockos.Process.{Process, process_at, set_syscall_saved}
use rockos.Process.Slots.{process_at-update_at}
use rockos.User.{user_text_base, stack_lo, user_region_is_readable_range}
use rockos.Brk.{Mapper}
use rockos.Paging.{read_user}
use rockos.Paging.Access.{written_at}
use rockos.Elf.Stack.Reference.{reference}
use rockos.Elf.{Result, ok, err, panicked, ExecArgs, ElfLoadedMeta}
use rockos.Elf.Headers.{ElfHeader, read_header}
use rockos.Elf.Loader.{load_elf_mapped}
use rockos.Elf.Loader.Frames.{TakesFrames, Owned}
use rockos.Elf.Loader.Segments.{KeepsLow}
use rockos.Elf.Loader.Reference.{load_reference, AllLow}
use rockos.Elf.Exec.{Program, unmap_old_image_best_effort, load_elf_exec}
use rockos.Elf.Exec.Clearing.{UnmapsFrames, cleared_at, old_pages}
use rockos.Elf.Exec.Replacing.{load_elf_exec-reference}
use rockos.Execve.{
  Parsed, parsed, refused, faulted, ExecState, parse_arguments, install, sys_execve,
}

module _ {T : Type 0} (M : Mapper T) (virt_new : ℕ → Option ℕ) (init_elf : List ℕ) where
  abbrev pub readable : ExecState T → (addr len : ℕ) → Bool
  readable s addr len =
      user_region_is_readable_range s.program.image s.kernel.procs s.kernel.current_slot addr len

  abbrev pub read : ExecState T → ℕ → Option ℕ
  read s = read_user M s.program.machine.pages s.program.machine.ram

  -- A success has parsed its arguments and loaded the image.
  record Installed (s : ExecState T) (path_u argv_u envp_u : ℕ) (out : Parsed ℕ × ExecState T)
      : Type 0 where
    args : ExecArgs
    entry : ℕ
    rsp : ℕ
    arguments : parse_arguments (readable s) (read s) path_u argv_u envp_u ≡ parsed args
    loaded : (load_elf_exec M virt_new init_elf 0 args s.program).0 ≡ ok (entry, rsp)
    machine : out.1.program.machine ≡ (load_elf_exec M virt_new init_elf 0 args s.program).1.machine
    procs :
        out.1.kernel.procs
        ≡ set_syscall_saved s.kernel.procs s.kernel.current_slot (bootstrap_user entry rsp 0x202) 0
    entry_rip : out.1.program.image.entry_rip ≡ entry

  install-Installed :
      (s : ExecState T) (path_u argv_u envp_u : ℕ) (args : ExecArgs)
      (r : Result (ℕ × ℕ) × Program T)
      → parse_arguments (readable s) (read s) path_u argv_u envp_u ≡ parsed args
      → load_elf_exec M virt_new init_elf 0 args s.program ≡ r
      → (install M virt_new init_elf s r).0 ≡ parsed 0
      → Installed s path_u argv_u envp_u (install M virt_new init_elf s r)
  unfolding install
  install-Installed s path_u argv_u envp_u args (ok (entry, rsp), p) arguments e okay = record {
    args = args;
    entry = entry;
    rsp = rsp;
    arguments = arguments;
    loaded = ap (λ q. q.0) e;
    machine = ap (λ q. q.1.machine) (sym e);
    procs = refl;
    entry_rip = refl;
  }
  install-Installed s path_u argv_u envp_u args (err x, p) arguments e okay = cc
  install-Installed s path_u argv_u envp_u args (panicked, p) arguments e okay = cc

  abbrev continue_execve : ExecState T → Parsed ExecArgs → Parsed ℕ × ExecState T
  continue_execve s a = elim a [
    | faulted ↦ (faulted, s)
    | refused e ↦ (refused e, s)
    | parsed args ↦
        install M virt_new init_elf s (load_elf_exec M virt_new init_elf 0 args s.program)
  ]

  sys_execve-Installed :
      (s : ExecState T) (path_u argv_u envp_u : ℕ)
      → (sys_execve M virt_new init_elf s path_u argv_u envp_u).0 ≡ parsed 0
      → Installed s path_u argv_u envp_u (sys_execve M virt_new init_elf s path_u argv_u envp_u)
  unfolding sys_execve
  sys_execve-Installed s path_u argv_u envp_u okay =
      go (parse_arguments (readable s) (read s) path_u argv_u envp_u) refl okay
    where
      go :
          (a : Parsed ExecArgs)
          → parse_arguments (readable s) (read s) path_u argv_u envp_u ≡ a
          → (continue_execve s a).0 ≡ parsed 0
          → Installed s path_u argv_u envp_u (continue_execve s a)
      go (parsed args) e done =
          install-Installed s path_u argv_u envp_u args
            (load_elf_exec M virt_new init_elf 0 args s.program) e refl done
      go (refused x) e done = cc
      go faulted e done = cc

  -- What such a call leaves behind.
  pub record Replaces (s : ExecState T) (path_u argv_u envp_u : ℕ) (eh : ElfHeader)
      (old : ℕ → Option ℕ) (out : ExecState T) : Type 0 where
    pub args : ExecArgs
    pub arguments : parse_arguments (readable s) (read s) path_u argv_u envp_u ≡ parsed args
    pub entry : ℕ
    pub meta : ElfLoadedMeta
    pub loaded :
        (load_elf_mapped M virt_new init_elf 0
          (unmap_old_image_best_effort M virt_new s.program.image.image_end s.program.machine).1).0
        ≡ ok (entry, meta)
    pub frame :
        (p : Process)
        → process_at s.kernel.procs s.kernel.current_slot ≡ some p
        → process_at out.kernel.procs s.kernel.current_slot
          ≡ some (record p { save = bootstrap_user entry stack_lo 0x202; pending_rax = 0 })
    pub reads :
        (va : ℕ)
        → read_user M out.program.machine.pages out.program.machine.ram va
          ≡ written_at stack_lo
              (reference meta args)
              (load_reference init_elf 0 eh.e_phnum eh.e_phoff old)
              va

  frame-set_syscall_saved :
      (s : ExecState T) (save : SyscallSaved) (p : Process)
      → process_at s.kernel.procs s.kernel.current_slot ≡ some p
      → process_at
          (set_syscall_saved s.kernel.procs s.kernel.current_slot save 0)
          s.kernel.current_slot
        ≡ some (record p { save = save; pending_rax = 0 })
  unfolding set_syscall_saved
  frame-set_syscall_saved s save p there =
      let u =
        process_at-update_at s.kernel.procs s.kernel.current_slot s.kernel.current_slot
          (λ q. record q { save = save; pending_rax = 0 }) in
      ground (arith, u, there)

  -- After an execve that returned 0, where the pages have frames of their own that the allocator
  -- holds as used, and the caller's USER_IMAGE_END and the segments of the image lie in the low half
  -- of the address space: the arguments were read from the caller's memory; in the caller's slot, if
  -- it holds a process, the saved frame is the one that `bootstrap_user` builds from the entry of
  -- the program, the lowest address of the stack page and the flags 0x202, with the result 0; and
  -- user memory holds the first stack for these arguments, over the program's segments, over the old
  -- memory without its image.
  pub sys_execve-Replaces :
      (low : KeepsLow virt_new) (frames : TakesFrames M) (unmaps : UnmapsFrames M) (s : ExecState T)
      (path_u argv_u envp_u : ℕ) (eh : ElfHeader)
      → Owned M s.program.machine
      → read_header init_elf ≡ ok eh
      → AllLow init_elf 0 eh.e_phnum eh.e_phoff
      → s.program.image.image_end ≤ 2 ^ 47
      → (sys_execve M virt_new init_elf s path_u argv_u envp_u).0 ≡ parsed 0
      → Replaces s path_u argv_u envp_u eh
          (cleared_at user_text_base (old_pages M unmaps s.program.image.image_end) (read s))
          (sys_execve M virt_new init_elf s path_u argv_u envp_u).1
  sys_execve-Replaces low frames unmaps s path_u argv_u envp_u eh o header fits end_low okay =
      let i = sys_execve-Installed s path_u argv_u envp_u okay in
      let z =
        load_elf_exec-reference M virt_new low frames unmaps init_elf 0 i.args s.program eh i.entry
          i.rsp o header fits end_low i.loaded in
      record {
        args = i.args;
        arguments = i.arguments;
        entry = i.entry;
        meta = z.meta;
        loaded = z.was_loaded;
        frame = λ p there.
            ap (λ t. process_at t s.kernel.current_slot) i.procs
            ∙ frame-set_syscall_saved s (bootstrap_user i.entry i.rsp 0x202) p there
            ∙ ap (λ n. some (record p { save = bootstrap_user i.entry n 0x202; pending_rax = 0 }))
                z.at_stack;
        reads = λ va. ap (λ m. read_user M m.pages m.ram va) i.machine ∙ z.reads va;
      }
