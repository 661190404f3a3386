-- ===== src/Elf/Exec/Unmapping.antt =====
-- The loop of `unmap_old_image_best_effort` of src/elf.rs where no address is refused.
use rockos.Prelude.{
  ℕ, zero, suc, ◌+◌, ◌-◌, ◌*◌, ◌/◌, ◌%◌, ◌^◌, ◌≤◌, ◌<◌, ◌≡◌, refl, ap, true, Option, arith, ltb,
}
use rockos.Memory.{BitmapFrameAllocator, page_size}
use rockos.Brk.{Mapper, containing_address, unmap_page, unmap_pages}
use rockos.User.{user_text_base}
use rockos.Paging.{Physical, Machine}
use rockos.Elf.{ok}
use rockos.Elf.Loader.Segments.{KeepsLow}
use rockos.Elf.Exec.{unmap_old_pages, unmap_old_image_best_effort}

abbrev pub machine_of : {T : Type 0} → Physical → T × BitmapFrameAllocator → Machine T
machine_of ram s = record { pages = s.0; allocator = s.1; ram = ram }

-- A machine without the pages from USER_TEXT_BASE to `hi`.
abbrev pub without_image : {T : Type 0} → Mapper T → (hi : ℕ) → Machine T → Machine T
without_image M hi s =
    let rounds = (hi - user_text_base + page_size - 1) / page_size in
    machine_of s.ram (unmap_pages M rounds user_text_base (s.pages, s.allocator))

module _ {T : Type 0} (M : Mapper T) (virt_new : ℕ → Option ℕ) (low : KeepsLow virt_new) where
  unmap_old_pages-unmap_pages :
      (n va : ℕ) (s : T × BitmapFrameAllocator)
      → va % page_size ≡ 0
      → va + n * page_size < 2 ^ 47 + page_size
      → unmap_old_pages M virt_new n va s ≡ (ok tt, unmap_pages M n va s)
  unfolding unmap_old_pages unmap_pages
  unmap_old_pages-unmap_pages zero va s start h = refl
  unmap_old_pages-unmap_pages (suc n) va s start h =
      let at : containing_address va ≡ va = omega arith in
      let fits : ltb (va + page_size) (2 ^ 64) ≡ true = ground arith in
      rw (unmap_old_pages, low va (omega arith))
        (rw fits (
          rw at (
            unmap_old_pages-unmap_pages n (va + page_size) (unmap_page M va s) (omega arith)
              (omega arith))))

  -- For an image that ends in the low half of the address space the loop does not panic.
  pub unmap_old_image-without_image :
      (hi : ℕ) (s : Machine T)
      → hi ≤ 2 ^ 47
      → unmap_old_image_best_effort M virt_new hi s ≡ (ok tt, without_image M hi s)
  unfolding unmap_old_image_best_effort
  unmap_old_image-without_image hi s h =
      let rounds = (hi - user_text_base + page_size - 1) / page_size in
      ap (λ u. (u.0, record s { pages = u.1.0; allocator = u.1.1 }))
        (unmap_old_pages-unmap_pages rounds user_text_base (s.pages, s.allocator) (omega arith)
          (omega arith))
