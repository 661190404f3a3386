-- ===== src/Elf/Headers.antt =====
-- The headers of an ELF image as src/elf.rs reads them, and what `load_elf_mapped` computes of a
-- segment before it maps pages. `VirtAddr::new` of the x86_64 crate is a parameter, none its panic.
-- Additions of 64-bit numbers panic on a carry, as they do in the profile that the crate is built with.
use Prim.Native.Nat.{bit_and}
use rockos.Prelude.{
  ℕ, ◌+◌, ◌-◌, ◌%◌, ◌^◌, min, Bool, not, ◌&&◌, ◌||◌, Option, none, some, List, length, take, drop,
  get_or, ltb, leb, ◌==◌, if◌then◌else◌,
}
use rockos.Bytes.{from_le_bytes}
use rockos.Memory.{page_size}
use rockos.Brk.{containing_address}
use rockos.Mmap.{saturating_add}
use rockos.User.{user_text_base}
use rockos.Elf.{
  truncated, bad_elf, not_exec_dyn, not_x86_64, unexpected_phdr_size, no_phdr_in_load, Result, ok,
  err, panicked, ◌>>=◌, ◌>>◌, fail_if, ElfLoadedMeta,
}

-- `from_le_bytes` of the `n` bytes from `first` on.
abbrev pub field : (image : List ℕ) (first n : ℕ) → ℕ
field image first n = from_le_bytes (take n (drop first image))

-- The program header at an offset.
pub record ProgramHeader : Type 0 where
  pub p_type : ℕ
  pub p_flags : ℕ
  pub p_offset : ℕ
  pub p_vaddr : ℕ
  pub p_filesz : ℕ
  pub p_memsz : ℕ
  pub p_align : ℕ

abbrev pub header_at : List ℕ → (off : ℕ) → ProgramHeader
header_at image off = record {
  p_type = field image off 4;
  p_flags = field image (off + 4) 4;
  p_offset = field image (off + 8) 8;
  p_vaddr = field image (off + 16) 8;
  p_filesz = field image (off + 32) 8;
  p_memsz = field image (off + 40) 8;
  p_align = field image (off + 48) 8;
}

-- The checks of the ELF header, and what the loader takes from it.
pub record ElfHeader : Type 0 where
  pub e_entry : ℕ
  pub e_phoff : ℕ
  pub e_phnum : ℕ
  pub e_phentsize : ℕ

abbrev pub starts_with_magic : List ℕ → Bool
starts_with_magic image =
    get_or image 0 0 == 0x7f
    && (get_or image 1 0 == 0x45 && (get_or image 2 0 == 0x4c && get_or image 3 0 == 0x46))

unfoldable pub read_header : List ℕ → Result ElfHeader
read_header image = do
  fail_if (ltb (length image) 64) truncated
  fail_if
      (not (starts_with_magic image)
        || (not (get_or image 4 0 == 2) || not (get_or image 5 0 == 1)))
      bad_elf
  fail_if (not (field image 16 2 == 2) && not (field image 16 2 == 3)) not_exec_dyn
  fail_if (not (field image 18 2 == 0x3e)) not_x86_64
  fail_if (not (field image 54 2 == 56)) unexpected_phdr_size
  ok (record {
    e_entry = field image 24 8;
    e_phoff = field image 32 8;
    e_phnum = field image 56 2;
    e_phentsize = field image 54 2;
  })

-- `image_end`, `rw_min` and `phdr_va`.
pub record Loaded : Type 0 where
  pub image_end : ℕ
  pub rw_min : Option ℕ
  pub phdr_va : Option ℕ

abbrev pub max : ℕ → ℕ → ℕ
max a b = if ltb a b then b else a

abbrev pub lower_of : Option ℕ → ℕ → Option ℕ
lower_of none seg = some seg
lower_of (some m) seg = some (min m seg)

-- PRESENT and USER_ACCESSIBLE, WRITABLE by bit 1 of the header's flags, NO_EXECUTE unless bit 0.
abbrev pub segment_flags : (p_flags : ℕ) → ℕ
segment_flags p_flags =
    1
    + 4
    + (if bit_and p_flags 2 == 0 then 0 else 2)
    + (if bit_and p_flags 1 == 0 then 2 ^ 63 else 0)

abbrev pub note_writable : (p_flags seg : ℕ) → Loaded → Loaded
note_writable p_flags seg l =
    if bit_and p_flags 2 == 0 then l else record l { rw_min = lower_of l.rw_min seg }

abbrev pub holds_headers : ProgramHeader → (e_phoff : ℕ) → Bool
holds_headers h e_phoff =
    leb h.p_offset e_phoff && ltb e_phoff (saturating_add h.p_offset h.p_filesz)

-- `VirtAddr::new`, and an addition of 64-bit numbers.
abbrev pub virt_addr : (ℕ → Option ℕ) → ℕ → Result ℕ
virt_addr virt_new a = elim (virt_new a) [ none ↦ panicked | some v ↦ ok v ]

abbrev pub checked : ℕ → Result ℕ
checked n = if ltb n (2 ^ 64) then ok n else panicked

-- What the loader computes of a segment before it maps pages: its start, the first page and the last,
-- and the accumulators, `image_end` included as it is set once the segment is in place.
pub record Plan : Type 0 where
  pub seg : ℕ
  pub first : ℕ
  pub last : ℕ
  pub loaded : Loaded

abbrev pub note_headers : ProgramHeader → (e_phoff seg : ℕ) → Loaded → Result Loaded
note_headers h e_phoff seg l =
    if holds_headers h e_phoff
    then (checked (seg + (e_phoff - h.p_offset)) >>= λ va. ok (record l { phdr_va = some va }))
    else ok l

unfoldable pub plan_pages :
    (virt_new : ℕ → Option ℕ) → ProgramHeader → (seg : ℕ) → Loaded → Result Plan
plan_pages virt_new h seg l = do
  vstart ← virt_addr virt_new seg
  end ← checked (seg + h.p_memsz)
  vend ← virt_addr virt_new end
  vlast ← virt_addr virt_new (vend - 1)
  let l' = note_writable h.p_flags seg l
  ok (record {
    seg = seg;
    first = containing_address vstart;
    last = containing_address vlast;
    loaded = record l' { image_end = max l'.image_end end };
  })

unfoldable pub plan_segment :
    (virt_new : ℕ → Option ℕ) (e_phoff bias : ℕ) → ProgramHeader → Loaded → Result Plan
plan_segment virt_new e_phoff bias h l = do
  let seg = (h.p_vaddr + bias) % 2 ^ 64
  l' ← note_headers h e_phoff seg l
  plan_pages virt_new h seg l'

abbrev pub nothing_loaded : Loaded
nothing_loaded = record { image_end = 0; rw_min = none; phdr_va = none }

-- The metadata at the end of `load_elf_mapped`.
unfoldable pub finish : ElfHeader → (bias : ℕ) → Loaded → Result (ℕ × ElfLoadedMeta)
finish eh bias l = elim l.phdr_va [
  | none ↦ err no_phdr_in_load
  | some phdr ↦
      let entry = (eh.e_entry + bias) % 2 ^ 64 in
      ok (
        entry,
        record {
          entry = entry;
          phdr = phdr;
          phnum = eh.e_phnum;
          phent = eh.e_phentsize;
          image_end = l.image_end;
          rw_min = elim l.rw_min [ none ↦ user_text_base + page_size | some m ↦ m ];
        },
      )
]
