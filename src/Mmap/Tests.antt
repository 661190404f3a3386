-- ===== src/Mmap/Tests.antt =====
-- One process without areas over a page table that is a function from pages to frames.
use rockos.Prelude.{◌≡◌, refl, none, some, [], ◌∷◌, arith}
use rockos.Memory.{
  allocate_frame_inner, allocate_from, trailing_zeros, zeros_from, deallocate_frame_inner, is_free,
  pass_over,
}
use rockos.Process.{update_at}
use rockos.Fs.{errno}
use rockos.Brk.{unmap_4k_and_free_bitmap}
use rockos.Brk.PageFunction.{Pages, page_function}
use rockos.Mmap.{
  MmapState, sys_mmap, sys_munmap, map_at, map_user_anon_pages, map_anon_page, unmap_user_range,
  retain, hit,
}
use rockos.Mmap.Windows.{Outcome, sys_mmap-Outcome}
use rockos.Mmap.Owning.{IsValid, maps, unmaps, Calls, done, step, Calls-IsValid}

-- Four free frames and no page in use.
abbrev fresh : MmapState Pages
fresh = record {
  space = record {
    procs =
        some (record {
          pid = 1;
          parent = none;
          brk_end = 0x404000;
          vm_areas = [];
          exit_code = none;
          kstack_top = 0x9000;
          save = record {
            user_rsp = 0;
            user_rip = 0;
            user_rflags = 0;
            rbx = 0;
            rbp = 0;
            r12 = 0;
            r13 = 0;
            r14 = 0;
            r15 = 0;
          };
          pending_rax = 0;
        })
        ∷ [];
    current_slot = 0;
    pages = λ page. none;
    allocator = record { bitmap = 0xe1 ∷ []; total_usable = 8; free_count = 4 };
  };
  next_mmap = 0x410000;
  vm_area_next_id = 1;
}

fresh-IsValid : IsValid page_function fresh
fresh-IsValid = record { aligned = omega arith; from = omega arith; owned = (tt, tt) }

program : Unit {0}
unfolding sys_mmap sys_munmap map_at map_user_anon_pages map_anon_page unmap_user_range retain hit
    unmap_4k_and_free_bitmap allocate_frame_inner allocate_from trailing_zeros zeros_from
    deallocate_frame_inner is_free pass_over update_at
program = tt

maps_two_pages :
    let (ret, m) = sys_mmap page_function fresh 0 5000 3 in
    (ret ≡ 0x410000) × (m.space.pages 0x411000 ≡ some 0x2000) × (m.next_mmap ≡ 0x412000)
unfolding program
maps_two_pages = (refl, refl, refl)

abbrev in_use : MmapState Pages
in_use = (sys_mmap page_function fresh 0 5000 3).1

-- `munmap` wants the length in whole pages.
unmaps_whole_pages :
    ((sys_munmap page_function in_use.space 0x410000 5000).0 ≡ errno 22)
    × ((sys_munmap page_function in_use.space 0x410000 8192).0 ≡ 0)
unfolding program
unmaps_whole_pages = (refl, refl)

sys_mmap-Outcome_example :
    Outcome page_function fresh.space 5000 (sys_mmap page_function fresh 0 5000 3)
sys_mmap-Outcome_example = sys_mmap-Outcome page_function fresh 0 5000 3 (omega arith) (omega arith)

abbrev unmapped : MmapState Pages
unmapped = record in_use { space = (sys_munmap page_function in_use.space 0x410000 8192).1 }

calls : Calls page_function fresh unmapped
calls =
    step (maps fresh 0 5000 3 (omega arith)) (step (unmaps in_use 0x410000 8192) (done unmapped))

Calls-IsValid_example : IsValid page_function unmapped
Calls-IsValid_example = Calls-IsValid page_function calls fresh-IsValid
