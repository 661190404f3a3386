-- ===== src/User.antt =====
-- The range checks of src/user.rs on pointers that a system call gets from user mode. USER_IMAGE_END,
-- USER_RW_IMAGE_START and USER_ENTRY_RIP are the fields of a record.
pub mod Ranges
mod Tests
use rockos.Prelude.{ℕ, ◌+◌, ◌-◌, ◌^◌, Bool, true, false, ◌&&◌, ◌||◌, leb, if◌then◌else◌}
use rockos.Process.{ProcessTable, user_stack_top}
use rockos.Process.Areas.{covers_brk_heap, covers_mmap_read, covers_mmap_write}

abbrev pub user_text_base : ℕ
user_text_base = 0x400000

abbrev pub stack_lo : ℕ
stack_lo = user_stack_top - 4096

pub record UserImage : Type 0 where
  pub image_end : ℕ
  pub rw_image_start : ℕ
  pub entry_rip : ℕ

-- The values before a program is loaded.
abbrev pub initial : UserImage
initial = record {
  image_end = user_text_base + 4096;
  rw_image_start = user_text_base + 4096;
  entry_rip = user_text_base;
}

-- `checked_add` fails on a carry out of 64 bits.
unfoldable pub user_region_is_readable_range :
    UserImage → ProcessTable → (current_slot addr len : ℕ) → Bool
user_region_is_readable_range u t current_slot addr len =
    let end = addr + len in
    if leb (2 ^ 64) end
    then false
    else leb user_text_base addr && leb end u.image_end
      || (leb stack_lo addr && leb end user_stack_top
          || (covers_brk_heap t current_slot addr end || covers_mmap_read t current_slot addr end))

unfoldable pub user_region_is_writable_range :
    UserImage → ProcessTable → (current_slot addr len : ℕ) → Bool
user_region_is_writable_range u t current_slot addr len =
    let end = addr + len in
    if leb (2 ^ 64) end
    then false
    else if leb stack_lo addr && leb end user_stack_top
    then true
    else if covers_brk_heap t current_slot addr end
    then true
    else if covers_mmap_write t current_slot addr end
    then true
    else leb u.rw_image_start addr && leb end u.image_end
