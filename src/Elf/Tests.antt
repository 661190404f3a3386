-- ===== src/Elf/Tests.antt =====
-- The loader and the first stack at a small program.
use rockos.Prelude.{
  ℕ, ◌+◌, ◌≡◌, refl, Option, none, some, [], ◌∷◌, arith, length, ltb, if◌then◌else◌,
}
use rockos.User.{initial, stack_lo}
use rockos.Paging.{Machine, read_user}
use rockos.Elf.{stack_ovf, ok, err, ExecArgs, ElfLoadedMeta}
use rockos.Elf.Stack.{stack_image}
use rockos.Elf.Stack.Reference.{reference, stack_image-reference}
use rockos.Elf.Headers.{ElfHeader, Plan, header_at, read_header}
use rockos.Elf.Loader.{load_elf_mapped}
use rockos.Elf.Loader.Segments.{Loads, planned}
use rockos.Elf.Loader.Reference.{load_reference, AllLow}
use rockos.Elf.Loader.Whole.{load_elf_mapped-reference}
use rockos.Elf.Loader.Bounds.{Reported, load_elf_mapped-Reported}
use rockos.Elf.Exec.{Program, build_exec_stack, load_elf_exec}
use rockos.Elf.Exec.Starting.{build_exec_stack-reference}
use rockos.Paging.Access.{written_at}
use rockos.Elf.Samples.{
  program, careful_pages, takes_frames, virt_new, virt_new-KeepsLow, machine, machine-Owned, image,
}

-- `/init` with one argument and one variable of the environment.
abbrev args : ExecArgs
args = record {
  argv = (0x2f ∷ 0x69 ∷ 0x6e ∷ 0x69 ∷ 0x74 ∷ []) ∷ [];
  envp = (0x41 ∷ 0x3d ∷ 0x31 ∷ []) ∷ [];
}

abbrev meta : ElfLoadedMeta
meta = record {
  entry = 0x400078;
  phdr = 0x400040;
  phnum = 1;
  phent = 56;
  image_end = 0x400080;
  rw_min = 0x400000;
}

stack_image-reference_example :
    stack_image meta args
    ≡ (if ltb 4096 (length (reference meta args)) then err stack_ovf else ok (reference meta args))
stack_image-reference_example = stack_image-reference meta args

abbrev empty_page : Machine (ℕ → Option ℕ)
empty_page = machine 0x403000 (λ a. 0)

abbrev elf_header : (vaddr : ℕ) → ElfHeader
elf_header vaddr = record { e_entry = vaddr + 120; e_phoff = 64; e_phnum = 1; e_phentsize = 56 }

reads_header : read_header (image 0x400000) ≡ ok (elf_header 0x400000)
unfolding program
reads_header = refl

loads :
    (load_elf_mapped careful_pages virt_new (image 0x400000) 0 empty_page).0 ≡ ok (0x400078, meta)
unfolding program
loads = refl

-- The segment lies in the low half.
fits : AllLow (image 0x400000) 0 1 64
unfolding program
fits = (λ loadable. (omega arith, omega arith), tt)

load_elf_mapped-reference_example :
    Loads careful_pages virt_new virt_new-KeepsLow
      (load_reference
        (image 0x400000)
        0
        1
        64
        (read_user careful_pages empty_page.pages empty_page.ram))
      (load_elf_mapped careful_pages virt_new (image 0x400000) 0 empty_page).1
load_elf_mapped-reference_example =
    load_elf_mapped-reference careful_pages virt_new virt_new-KeepsLow takes_frames (image 0x400000)
      0 empty_page (elf_header 0x400000) (0x400078, meta) (machine-Owned 0x403000 (λ a. 0))
      reads_header fits loads

load_elf_mapped-Reported_example :
    Reported careful_pages virt_new (image 0x400000) 0 (elf_header 0x400000) (0x400078, meta)
load_elf_mapped-Reported_example =
    load_elf_mapped-Reported careful_pages virt_new (image 0x400000) 0 empty_page
      (elf_header 0x400000) (0x400078, meta) reads_header loads

-- A program that is running, and its image in the page at 0x400000.
abbrev running : Program (ℕ → Option ℕ)
running = record { machine = machine 0x400000 (λ a. 0); image = initial }

starts :
    (load_elf_exec careful_pages virt_new (image 0x400000) 0 args running).0
    ≡ ok (0x400078, 0x401000)
unfolding program
starts = refl

build_exec_stack-reference_example :
    let v = reference meta args in
    let (r, s') = build_exec_stack careful_pages meta args empty_page in
    (r ≡ (if ltb 4096 (length v) then err stack_ovf else ok stack_lo))
    × (read_user careful_pages s'.pages s'.ram 0x401000 ≡ (
        if ltb 4096 (length v)
        then read_user careful_pages empty_page.pages empty_page.ram 0x401000
        else written_at stack_lo v
            (read_user careful_pages empty_page.pages empty_page.ram)
            0x401000))
build_exec_stack-reference_example =
    build_exec_stack-reference careful_pages meta args empty_page 0x5000 0x401000
      (machine-Owned 0x403000 (λ a. 0)).distinct refl

-- A program whose segment starts at 0x3ff000, as that of assets/init.elf does.
abbrev low_program : Program (ℕ → Option ℕ)
low_program = record { machine = machine 0x3ff000 (λ a. 0); image = initial }

abbrev low_plan : Plan
low_plan =
    planned careful_pages virt_new virt_new-KeepsLow (header_at (image 0x3ff000) 64) 0x3ff000
      (record { image_end = 0; rw_min = none; phdr_va = some 0x3ff040 })
