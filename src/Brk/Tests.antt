-- ===== src/Brk/Tests.antt =====
-- The heap over a page table that is a function from pages to frames.
use rockos.Prelude.{ℕ, ◌≡◌, refl, Option, none, some, [], ◌∷◌, arith, ◌==◌, if◌then◌else◌}
use rockos.Memory.{
  allocate_frame_inner, allocate_from, trailing_zeros, zeros_from, deallocate_frame_inner, is_free,
  pass_over,
}
use rockos.Process.{Process, update_at}
use rockos.Process.Areas.{covers_brk_heap}
use rockos.Fs.{errno}
use rockos.Brk.{
  Space, containing_address, sys_brk, brk_from, map_brk_grow, map_brk_shrink, map_pages, map_page,
  unmap_pages, unmap_page, unmap_4k_and_free_bitmap,
}
use rockos.Brk.PageFunction.{Pages, page_function}
use rockos.Brk.Growing.{IsMapped}
use rockos.Brk.Heap.{IsValid, Moved, sys_brk-Moved, covers_brk_heap-IsMapped}

abbrev process : (brk_end : ℕ) → Option Process
process brk_end = some (record {
  pid = 1;
  parent = none;
  brk_end = brk_end;
  vm_areas = [];
  exit_code = none;
  kstack_top = 0x9000;
  save = record {
    user_rsp = 0;
    user_rip = 0;
    user_rflags = 0;
    rbx = 0;
    rbp = 0;
    r12 = 0;
    r13 = 0;
    r14 = 0;
    r15 = 0;
  };
  pending_rax = 0;
})

-- One page of heap in frame 0x7000, and two free frames.
abbrev small_heap : Space Pages
small_heap = record {
  procs = process 0x405000 ∷ [];
  current_slot = 0;
  pages = λ page. if page == 0x404000 then some 0x7000 else none;
  allocator = record { bitmap = 0xf9 ∷ []; total_usable = 8; free_count = 2 };
}

small_heap-IsValid : IsValid page_function small_heap
small_heap-IsValid = record {
  starts = omega arith;
  ends = omega arith;
  mapped = λ addr lo hi. ground arith;
}

program : Unit {0}
unfolding sys_brk brk_from map_brk_grow map_brk_shrink map_pages map_page unmap_pages unmap_page
    unmap_4k_and_free_bitmap allocate_frame_inner allocate_from trailing_zeros zeros_from
    deallocate_frame_inner is_free pass_over update_at covers_brk_heap
program = tt

grows_by_two_pages :
    let (ret, a) = sys_brk page_function small_heap 0x407000 in
    (ret ≡ 0x407000) × (a.pages 0x405000 ≡ some 0x1000) × (a.pages 0x406000 ≡ some 0x2000)
unfolding program
grows_by_two_pages = (refl, refl, refl)

no_third_frame : (sys_brk page_function small_heap 0x408000).0 ≡ errno 12
unfolding program
no_third_frame = refl

shrinks_to_nothing :
    let (ret, a) = sys_brk page_function small_heap 0x404000 in
    (ret ≡ 0x404000) × (a.pages 0x404000 ≡ none)
unfolding program
shrinks_to_nothing = (refl, refl)

sys_brk-Moved_example : Moved page_function small_heap (sys_brk page_function small_heap 0x407000)
sys_brk-Moved_example = sys_brk-Moved page_function small_heap 0x407000 small_heap-IsValid

covers_brk_heap-IsMapped_example :
    IsMapped page_function small_heap.pages (containing_address 0x404ff0)
unfolding program
covers_brk_heap-IsMapped_example =
    covers_brk_heap-IsMapped page_function small_heap 0x404f00 0x405000 0x404ff0 small_heap-IsValid
      refl (omega arith) (omega arith)
