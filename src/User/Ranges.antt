-- ===== src/User/Ranges.antt =====
-- What the range checks let through.
use rockos.Prelude.{ℕ, ◌+◌, ◌≤◌, ◌≡◌, subst, true, false, arith, Option-cases, inl, inr}
use rockos.Process.{ProcessTable, process_at, user_brk_limit, user_mmap_limit}
use rockos.Process.Areas.{
  covers_brk_heap, covers_mmap_read, covers_mmap_write, covered-read, covered_bounds, OwnsWindow,
}
use rockos.User.{
  UserImage, user_text_base, user_region_is_readable_range, user_region_is_writable_range,
}

covers_mmap-read :
    (t : ProcessTable) (slot addr end : ℕ)
    → covers_mmap_write t slot addr end ≡ true
    → covers_mmap_read t slot addr end ≡ true
unfolding covers_mmap_write covers_mmap_read
covers_mmap-read t slot addr end h = elim (Option-cases (process_at t slot)) [
  | inl nobody ↦ ground arith
  | inr (p, e) ↦ ground (arith, covered-read p.vm_areas addr end)
]

-- A range that may be written may be read, if the writable part of the image starts no lower than
-- the image.
pub writable-readable :
    (u : UserImage) (t : ProcessTable) (slot addr len : ℕ)
    → user_text_base ≤ u.rw_image_start
    → user_region_is_writable_range u t slot addr len ≡ true
    → user_region_is_readable_range u t slot addr len ≡ true
unfolding user_region_is_writable_range user_region_is_readable_range
writable-readable u t slot addr len low h =
    ground (arith, covers_mmap-read t slot addr (addr + len))

covers_mmap_read_bounds :
    (t : ProcessTable) (slot addr end : ℕ)
    → OwnsWindow (process_at t slot)
    → covers_mmap_read t slot addr end ≡ true
    → (user_text_base ≤ addr) × (end ≤ user_mmap_limit)
unfolding covers_mmap_read
covers_mmap_read_bounds t slot addr end w h = elim (Option-cases (process_at t slot)) [
  | inl nobody ↦ ground arith
  | inr (p, e) ↦
      let owned = subst OwnsWindow e w in
      ground (arith, covered_bounds false p.vm_areas addr end owned)
]

covers_brk_heap_bounds :
    (t : ProcessTable) (slot addr end : ℕ)
    → covers_brk_heap t slot addr end ≡ true
    → (user_text_base ≤ addr) × (end ≤ user_brk_limit)
unfolding covers_brk_heap
covers_brk_heap_bounds t slot addr end h = ground arith

-- A range that may be read lies between 0x400000 and 0x480000 and does not wrap, if the image ends
-- below that limit and the process's areas lie in the window for `mmap`.
pub readable_bounds :
    (u : UserImage) (t : ProcessTable) (slot addr len : ℕ)
    → u.image_end ≤ user_mmap_limit
    → OwnsWindow (process_at t slot)
    → user_region_is_readable_range u t slot addr len ≡ true
    → (user_text_base ≤ addr) × (addr + len ≤ user_mmap_limit)
unfolding user_region_is_readable_range
readable_bounds u t slot addr len low w h = ground (
  arith,
  covers_mmap_read_bounds t slot addr (addr + len) w,
  covers_brk_heap_bounds t slot addr (addr + len),
)
