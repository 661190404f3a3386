-- ===== src/Elf/Exec/Failing.antt =====
-- What becomes of a caller of `load_elf_exec` of src/elf.rs whose image has a page below
-- USER_TEXT_BASE, where `unmap_old_image_best_effort` does not reach.
use rockos.Prelude.{ℕ, ◌≡◌, ◌≢◌, true, false, not, ◌&&◌, Option, some, List, ◌==◌}
use rockos.Memory.{BitmapFrameAllocator}
use rockos.Brk.{Mapper, pages_between}
use rockos.Paging.{Machine}
use rockos.Elf.{ElfError, Result, ok, err}
use rockos.Elf.Headers.{ProgramHeader, Plan, plan_segment, nothing_loaded}

-- `map_to` refuses a page that is mapped already: `MapToError::PageAlreadyMapped`.
abbrev pub RefusesMapped : {T : Type 0} → Mapper T → Type 0
RefusesMapped {T} M =
    (t : T) (page frame other flags : ℕ) (fa : BitmapFrameAllocator)
    → M.translate t page ≡ some frame
    → (M.map_to t page other flags fa).0 ≡ false

module _ {T : Type 0} (M : Mapper T) (refuses : RefusesMapped M) where
  -- A step that failed and left every page but one as it was.
  pub record Fails {A : Type 0} (t : T) (page : ℕ) (r : Result A × Machine T) : Type 0 where
    pub error : ElfError
    pub failed : r.0 ≡ err error
    pub others : (other : ℕ) → other ≢ page → M.translate r.1.pages other ≡ M.translate t other

  module _ (virt_new : ℕ → Option ℕ) where
    -- A program header that asks for memory at a page that is mapped.
    pub record Clashes (t : T) (image : List ℕ) (e_phoff bias : ℕ) (h : ProgramHeader) (p : Plan)
        : Type 0 where
      pub load : (h.p_type == 1) ≡ true
      pub alignment : (not (h.p_align == 0) && not (h.p_align == 4096)) ≡ false
      pub memory : (h.p_memsz == 0) ≡ false
      pub planned : plan_segment virt_new e_phoff bias h nothing_loaded ≡ ok p
      pub pages : pages_between p.first p.last ≢ 0
      pub frame : ℕ
      pub mapped : M.translate t p.first ≡ some frame
