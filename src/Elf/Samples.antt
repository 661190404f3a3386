-- ===== src/Elf/Samples.antt =====
-- A page table, an allocator and a small ELF image to run the loader of src/elf.rs on.
use rockos.Prelude.{
  ℕ, ◌+◌, ◌≡◌, ◌≢◌, ◌∙◌, refl, sym, ap, subst, Bool, true, false, Option, none, some, List, [], ◌∷◌,
  ◌++◌, arith, replicate, ltb, ◌==◌, if◌then◌else◌,
}
use rockos.Bytes.{to_le_bytes, from_le_bytes, words}
use rockos.Memory.{
  BitmapFrameAllocator, all_used, is_free, deallocate_frame_inner, allocate_frame_inner,
  allocate_from, trailing_zeros, zeros_from, pass_over,
}
use rockos.Brk.{Mapper, is_some, unmap_pages, unmap_page, unmap_4k_and_free_bitmap}
use rockos.Paging.{Machine, translate_addr, write_user_byte, write_user_bytes}
use rockos.Elf.Stack.{
  stack_image, stack_head, patch_tables, push_strings, fill_table, fill_aux, write_word, pad,
  push_until, extend_zeros,
}
use rockos.Elf.Headers.{read_header, plan_segment, plan_pages, finish}
use rockos.Elf.Loader.{
  map_zeroed_page, map_zeroed_pages, copy_segment, place_segment, load_segment, load_segments,
  load_elf_mapped,
}
use rockos.Elf.Exec.{unmap_old_pages, unmap_old_image_best_effort, build_exec_stack, load_elf_exec}
use rockos.Memory.Booting.{all_used-IsBitmap, is_free-all_used}
use rockos.Memory.Counting.{count_free_none}
use rockos.Memory.Laws.{IsValid}
use rockos.Memory.Freeing.{deallocate_frame_inner-IsValid}
use rockos.Brk.PageFunction.{Pages, with_page, with_page_self, with_page_other}
use rockos.Elf.Loader.Frames.{TakesFrames, Owned}
use rockos.Elf.Loader.Segments.{KeepsLow}
use rockos.Elf.Exec.Clearing.{UnmapsFrames}
use rockos.Elf.Exec.Failing.{RefusesMapped}

-- Pages to frames, where a page that is mapped is not mapped again.
abbrev map_once :
    Pages → (page frame flags : ℕ) → BitmapFrameAllocator → Bool × (Pages × BitmapFrameAllocator)
map_once t page frame flags fa =
    if is_some (t page) then (false, (t, fa)) else (true, (with_page t page (some frame), fa))

pub map_once_ok :
    (t : Pages) (page frame flags : ℕ) (fa : BitmapFrameAllocator)
    → (map_once t page frame flags fa).0 ≡ true
    → (map_once t page frame flags fa).1.0 page ≡ some frame
map_once_ok t page frame flags fa okay = ground (arith, okay)

pub map_once_other :
    (t : Pages) (page frame flags : ℕ) (fa : BitmapFrameAllocator) (other : ℕ)
    → other ≢ page
    → (map_once t page frame flags fa).1.0 other ≡ t other
map_once_other t page frame flags fa other off = ground (arith, off)

abbrev pub careful_pages : Mapper Pages
careful_pages = record {
  translate = λ t page. t page;
  map_to = map_once;
  unmap = λ t page. (t page, with_page t page none);
  map_to_ok = map_once_ok;
  map_to_other = map_once_other;
  unmap_other = λ t page other ne. with_page_other t page other none ne;
}

map_once-allocator :
    (t : Pages) (page frame flags : ℕ) (fa : BitmapFrameAllocator)
    → (map_once t page frame flags fa).1.1 ≡ fa
map_once-allocator t page frame flags fa = ground arith

pub takes_frames : TakesFrames careful_pages
takes_frames = record {
  keeps_valid =
      λ t page frame flags fa v. subst IsValid (sym (map_once-allocator t page frame flags fa)) v;
  keeps_used = λ t page frame flags fa j u.
      ap (λ a. is_free a.bitmap j) (map_once-allocator t page frame flags fa) ∙ u;
}

pub unmaps_frames : UnmapsFrames careful_pages
unmaps_frames = record {
  gives = λ t page frame e. e;
  gone = λ t page frame e. with_page_self t page none;
}

pub refuses_mapped : RefusesMapped careful_pages
refuses_mapped t page frame other flags fa e = ground (arith, e)

abbrev pub virt_new : ℕ → Option ℕ
virt_new a = if ltb a 0x800000000000 then some a else none

pub virt_new-KeepsLow : KeepsLow virt_new
virt_new-KeepsLow a h = ground (arith, h)

-- No free frame, and frames 1 and 2 free.
abbrev exhausted : BitmapFrameAllocator
exhausted = record { bitmap = all_used; total_usable = 2; free_count = 0 }

exhausted-IsValid : IsValid exhausted
exhausted-IsValid = record {
  bitmap = all_used-IsBitmap;
  counted = sym (count_free_none all_used is_free-all_used);
  null = is_free-all_used 0;
}

abbrev pub two_free : BitmapFrameAllocator
two_free = deallocate_frame_inner (deallocate_frame_inner exhausted 0x1000) 0x2000

pub two_free-IsValid : IsValid two_free
two_free-IsValid =
    deallocate_frame_inner-IsValid (deallocate_frame_inner exhausted 0x1000) 0x2000
      (deallocate_frame_inner-IsValid exhausted 0x1000 exhausted-IsValid)

-- The page at `text` in frame 6, and the stack page in frame 5.
abbrev pub two_pages : (text : ℕ) → Pages
two_pages text page =
    if page == 0x401000 then some 0x5000 else if page == text then some 0x6000 else none

abbrev pub machine : (text : ℕ) → (ram : ℕ → ℕ) → Machine Pages
machine text ram = record { pages = two_pages text; allocator = two_free; ram = ram }

frames_used : (is_free two_free.bitmap 5 ≡ false) × (is_free two_free.bitmap 6 ≡ false)
unfolding is_free all_used deallocate_frame_inner
frames_used = (refl, refl)

pub machine-Owned : (text : ℕ) (ram : ℕ → ℕ) → Owned careful_pages (machine text ram)
machine-Owned text ram = record {
  valid = two_free-IsValid;
  distinct = record {
    aligned = λ page frame e. ground (arith, e);
    unshared = λ page other frame e e'. ground (arith, e, e');
  };
  held = λ page frame e. ground (arith, e, frames_used.0, frames_used.1);
}

-- A program of four bytes, one segment with the headers in it, at `vaddr`.
abbrev pub image : (vaddr : ℕ) → List ℕ
image vaddr =
    0x7f
    ∷ 0x45
    ∷ 0x4c
    ∷ 0x46
    ∷ 2
    ∷ 1
    ∷ 1
    ∷ 0
    ∷ (replicate 8 0
        ++ (to_le_bytes 2 2
            ++ (to_le_bytes 2 0x3e
                ++ (to_le_bytes 4 1
                    ++ (to_le_bytes 8 (vaddr + 120)
                        ++ (to_le_bytes 8 64
                            ++ (replicate 12 0
                                ++ (to_le_bytes 2 64
                                    ++ (to_le_bytes 2 56
                                        ++ (to_le_bytes 2 1
                                            ++ (replicate 6 0
                                                ++ (to_le_bytes 4 1
                                                    ++ (to_le_bytes 4 7
                                                        ++ (to_le_bytes 8 0
                                                            ++ (to_le_bytes 8 vaddr
                                                            ++ (to_le_bytes 8 0
                                                            ++ (to_le_bytes 8 124
                                                            ++ (to_le_bytes 8 128
                                                            ++ (to_le_bytes 8 4096
                                                            ++ (0x0f ∷ 0x05 ∷ 0xeb ∷ 0xfc
                                                            ∷ []))))))))))))))))))))

-- What the tests unfold.
unfoldable pub program : Unit {0}
unfolding to_le_bytes from_le_bytes words all_used is_free allocate_frame_inner allocate_from
    trailing_zeros zeros_from pass_over deallocate_frame_inner unmap_pages unmap_page
    unmap_4k_and_free_bitmap translate_addr write_user_byte write_user_bytes stack_image stack_head
    patch_tables push_strings fill_table fill_aux write_word pad push_until extend_zeros read_header
    plan_segment plan_pages map_zeroed_page map_zeroed_pages copy_segment place_segment load_segment
    load_segments finish load_elf_mapped unmap_old_pages unmap_old_image_best_effort
    build_exec_stack load_elf_exec
program = tt
