-- ===== src/User/Tests.antt =====
-- The range checks for one process with a heap and one mapped page.
use rockos.Prelude.{◌+◌, ◌≤◌, ◌≡◌, refl, true, false, none, some, [], ◌∷◌, arith}
use rockos.Process.{ProcessTable}
use rockos.Process.Areas.{covers_brk_heap, covers_mmap_read, covers_mmap_write, covered}
use rockos.User.{initial, user_region_is_readable_range, user_region_is_writable_range}
use rockos.User.Ranges.{readable_bounds}

abbrev table : ProcessTable
table =
    some (record {
      pid = 1;
      parent = none;
      brk_end = 0x405000;
      vm_areas =
          record { id = 1; virt_start = 0x410000; pages = 1; writable = false; executable = false }
          ∷ [];
      exit_code = none;
      kstack_top = 0x9000;
      save = record {
        user_rsp = 0;
        user_rip = 0;
        user_rflags = 0;
        rbx = 0;
        rbp = 0;
        r12 = 0;
        r13 = 0;
        r14 = 0;
        r15 = 0;
      };
      pending_rax = 0;
    })
    ∷ []

program : Unit {0}
unfolding user_region_is_readable_range user_region_is_writable_range covers_brk_heap
    covers_mmap_read covers_mmap_write covered
program = tt

read_only_page :
    (user_region_is_readable_range initial table 0 0x410010 16 ≡ true)
    × (user_region_is_writable_range initial table 0 0x410010 16 ≡ false)
unfolding program
read_only_page = (refl, refl)

readable_bounds_example : (0x400000 ≤ 0x410010) × (0x410010 + 16 ≤ 0x480000)
unfolding program
readable_bounds_example =
    readable_bounds initial table 0 0x410010 16 (omega arith) ((omega arith, omega arith), tt) refl
