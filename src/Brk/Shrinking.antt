-- ===== src/Brk/Shrinking.antt =====
-- Shrinking leaves the pages below the new end alone.
use rockos.Prelude.{
  ℕ, zero, suc, ◌+◌, ◌-◌, ◌*◌, ◌/◌, ◌<◌, ◌≡◌, ◌≢◌, ◌∙◌, refl, ap, arith, Bool-cases, Option-cases,
  inl, inr,
}
use rockos.Memory.{BitmapFrameAllocator, page_size}
use rockos.Brk.{
  Mapper, is_some, unmap_4k_and_free_bitmap, unmap_page, unmap_pages, map_brk_shrink, align_up,
  containing_address, pages_between,
}

module _ {T : Type 0} (M : Mapper T) where
  unmap_4k-other :
      (s : T × BitmapFrameAllocator) (virt other : ℕ)
      → other ≢ containing_address virt
      → M.translate (unmap_4k_and_free_bitmap M s virt).0 other ≡ M.translate s.0 other
  unfolding unmap_4k_and_free_bitmap
  unmap_4k-other s virt other ne = elim (Option-cases (M.unmap s.0 (containing_address virt)).0) [
    | inl failed ↦
        rw (failed, unmap_4k_and_free_bitmap) (M.unmap_other s.0 (containing_address virt) other ne)
    | inr (frame, done) ↦
        rw (done, unmap_4k_and_free_bitmap) (M.unmap_other s.0 (containing_address virt) other ne)
  ]

  unmap_page-other :
      (s : T × BitmapFrameAllocator) (page other : ℕ)
      → other ≢ containing_address page
      → M.translate (unmap_page M page s).0 other ≡ M.translate s.0 other
  unfolding unmap_page
  unmap_page-other s page other ne = elim (Bool-cases (is_some (M.translate s.0 page))) [
    | inl there ↦ rw there (unmap_4k-other s page other ne)
    | inr absent ↦ rw absent refl
  ]

  -- Pages below the first of the loop keep their translation.
  unmap_pages-below :
      (n k other : ℕ) (s : T × BitmapFrameAllocator)
      → other < k * page_size
      → M.translate (unmap_pages M n (k * page_size) s).0 other ≡ M.translate s.0 other
  unfolding unmap_pages
  unmap_pages-below zero k other s below = refl
  unmap_pages-below (suc n) k other s below =
      let next : k * page_size + page_size ≡ (k + 1) * page_size = omega arith in
      ap (λ p. M.translate (unmap_pages M n p (unmap_page M (k * page_size) s)).0 other) next
      ∙ unmap_pages-below n (k + 1) other (unmap_page M (k * page_size) s) (omega arith)
      ∙ unmap_page-other s (k * page_size) other (λ e. omega arith)

  -- Every page that holds an address below the new end keeps its translation.
  pub map_brk_shrink-keeps :
      (new_end old_end addr : ℕ) (s : T × BitmapFrameAllocator)
      → addr < new_end
      → M.translate (map_brk_shrink M new_end old_end s).0 (containing_address addr)
        ≡ M.translate s.0 (containing_address addr)
  unfolding map_brk_shrink
  map_brk_shrink-keeps new_end old_end addr s below =
      let first = align_up new_end page_size in
      let n = pages_between (containing_address first) (containing_address (old_end - 1)) in
      let kept =
        unmap_pages-below n (first / page_size) (containing_address addr) s (omega arith) in
      ground (arith, kept)
