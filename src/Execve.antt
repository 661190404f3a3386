-- ===== src/Execve.antt =====
-- `sys_execve` of src/process.rs with `parse_user_ptrvec` and `read_user_cstring`. User memory is read
-- through the page table, as the kernel's raw pointers are. The embedded image is an argument.
pub mod Strings
pub mod Replaced
mod Tests
use rockos.Prelude.{
  ℕ, zero, suc, ◌+◌, ◌*◌, ◌%◌, ◌^◌, Bool, true, false, not, Option, none, some, List, [], ◌∷◌, ◌++◌,
  length, ◌==◌, if◌then◌else◌,
}
use rockos.Bytes.{from_le_bytes}
use rockos.Task.{bootstrap_user}
use rockos.Process.{ProcessTable, set_syscall_saved}
use rockos.Scheduler.{Kernel}
use rockos.User.{UserImage, user_region_is_readable_range}
use rockos.Fs.{errno, bytes_eq}
use rockos.Fs.Utf8.{is_utf8}
use rockos.Brk.{Mapper}
use rockos.Paging.{Machine, read_user}
use rockos.Elf.{Result, ok, err, panicked, ExecArgs}
use rockos.Elf.Exec.{Program, load_elf_exec}

-- `refused` carries an error number. `faulted` is a page fault of the kernel, a pointer that is not
-- aligned, or a panic.
pub data Parsed {ℓ} (Value : Type ℓ) : Type ℓ where
  faulted : Parsed Value
  refused : (e : ℕ) → Parsed Value
  parsed : (value : Value) → Parsed Value

infixl 5 ◌>>=◌
abbrev pub ◌>>=◌ {m n} :
    {From : Type m} {To : Type n} (step : Parsed From) (next : From → Parsed To) → Parsed To
faulted >>= next = faulted
refused e >>= next = refused e
parsed value >>= next = next value

infixl 5 ◌>>◌
abbrev pub ◌>>◌ {n} : {To : Type n} (check : Parsed (Unit {0})) (next : Parsed To) → Parsed To
check >> next = check >>= (λ passed. next)

abbrev pub refuse_unless : Bool → ℕ → Parsed (Unit {0})
refuse_unless true e = parsed tt
refuse_unless false e = refused e

-- The kernel state and the running program.
pub record ExecState (T : Type 0) : Type 0 where
  pub kernel : Kernel
  pub program : Program T

abbrev pub init_path : List ℕ
init_path = 0x2f ∷ 0x69 ∷ 0x6e ∷ 0x69 ∷ 0x74 ∷ 0 ∷ []

module _ (readable : (addr len : ℕ) → Bool) (read : ℕ → Option ℕ) where
  -- A byte, and `n` bytes in a row, by a raw pointer.
  abbrev pub byte_at : (addr : ℕ) → Parsed ℕ
  byte_at addr = elim (read addr) [ none ↦ faulted | some b ↦ parsed b ]

  unfoldable pub bytes_from : (addr n : ℕ) → Parsed (List ℕ)
  bytes_from addr zero = parsed []
  bytes_from addr (suc n) = do b ← byte_at addr; bs ← bytes_from (addr + 1) n; parsed (b ∷ bs)

  -- The loop of `read_user_cstring`, `cap` rounds left, with the bytes so far in `v`.
  unfoldable pub read_bytes : (cap ptr : ℕ) → List ℕ → Parsed (List ℕ)
  read_bytes zero ptr v = parsed v
  read_bytes (suc cap) ptr v =
      let addr = ptr + length v in
      elim (readable addr 1) [
        | false ↦ refused (errno 14)
        | true ↦ elim (byte_at addr) [
          | faulted ↦ faulted
          | refused e ↦ refused e
          | parsed c ↦ elim (c == 0) [ true ↦ parsed v | false ↦ read_bytes cap ptr (v ++ c ∷ []) ]
        ]
      ]

  unfoldable pub read_user_cstring : (ptr cap : ℕ) → Parsed (List ℕ)
  read_user_cstring ptr cap =
      read_bytes cap ptr [] >>= λ v. (if is_utf8 v then parsed v else refused (errno 22))

  -- A pointer of the vector: eight bytes at a multiple of eight.
  unfoldable pub pointer_at : (p : ℕ) → Parsed ℕ
  pointer_at p = do
    refuse_unless (readable p 8) (errno 14)
    if p % 8 == 0 then (bytes_from p 8 >>= λ bs. parsed (from_le_bytes bs)) else faulted

  -- The loop of `parse_user_ptrvec`, `n` rounds left.
  unfoldable pub parse_pointers : (n p max_str : ℕ) → List (List ℕ) → Parsed (List (List ℕ))
  parse_pointers zero p max_str out = parsed out
  parse_pointers (suc n) p max_str out = elim (pointer_at p) [
    | faulted ↦ faulted
    | refused e ↦ refused e
    | parsed ptr ↦ elim (ptr == 0) [
      | true ↦ parsed out
      | false ↦ elim (read_user_cstring ptr max_str) [
        | faulted ↦ faulted
        | refused e ↦ refused e
        | parsed s ↦ parse_pointers n (p + 8) max_str (out ++ s ∷ [])
      ]
    ]
  ]

  unfoldable pub parse_user_ptrvec : (base max_ptrs max_str : ℕ) → Parsed (List (List ℕ))
  parse_user_ptrvec base max_ptrs max_str =
      if base == 0 then parsed [] else parse_pointers max_ptrs base max_str []

  -- The checks of `sys_execve` up to the loader: the path, the arguments and the environment.
  unfoldable pub parse_arguments : (path_u argv_u envp_u : ℕ) → Parsed ExecArgs
  parse_arguments path_u argv_u envp_u = do
    refuse_unless (readable path_u (length init_path)) (errno 14)
    path ← bytes_from path_u (length init_path)
    refuse_unless (bytes_eq path init_path) (errno 2)
    argv ← parse_user_ptrvec argv_u 32 256
    envp ← parse_user_ptrvec envp_u 16 256
    parsed (record { argv = argv; envp = envp })

module _ {T : Type 0} (M : Mapper T) (virt_new : ℕ → Option ℕ) (init_elf : List ℕ) where
  -- The end of `sys_execve`, from the answer of the loader.
  unfoldable pub install : ExecState T → Result (ℕ × ℕ) × Program T → Parsed ℕ × ExecState T
  install s r = elim r.0 [
    | err e ↦ (refused (errno 8), record s { program = r.1 })
    | panicked ↦ (faulted, record s { program = r.1 })
    | ok (entry, rsp) ↦ (
      parsed 0,
      record {
        kernel = record (s.kernel) {
          procs =
              set_syscall_saved s.kernel.procs s.kernel.current_slot
                (bootstrap_user entry rsp 0x202) 0;
        };
        program = record (r.1) { image = record (r.1.image) { entry_rip = entry } };
      },
    )
  ]

  unfoldable pub sys_execve : ExecState T → (path_u argv_u envp_u : ℕ) → Parsed ℕ × ExecState T
  sys_execve s path_u argv_u envp_u =
      let readable = λ (addr len : ℕ).
        user_region_is_readable_range s.program.image s.kernel.procs s.kernel.current_slot addr
          len in
      let read = read_user M s.program.machine.pages s.program.machine.ram in
      elim (parse_arguments readable read path_u argv_u envp_u) [
        | faulted ↦ (faulted, s)
        | refused e ↦ (refused e, s)
        | parsed args ↦ install s (load_elf_exec M virt_new init_elf 0 args s.program)
      ]
