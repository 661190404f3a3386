-- ===== src/Memory/Freeing.antt =====
-- `deallocate_frame_inner`, and a frame that is taken and given back.
use rockos.Prelude.{
  ℕ, zero, suc, ◌+◌, ◌/◌, ◌%◌, ◌^◌, ◌<◌, ◌≡◌, refl, sym, ◌∙◌, subst, Bool, true, false, some, List,
  arith, ◌==◌, ◌&&◌, if◌then◌else◌, ltb, Bool-cases, inl, inr,
}
use rockos.Memory.{
  BitmapFrameAllocator, is_free, mark_free, allocate_frame_inner, deallocate_frame_inner,
  frame_bitmap_bits, page_size,
}
use rockos.Memory.Bitmap.{IsBitmap, mark_free-IsBitmap, is_free-mark_free}
use rockos.Memory.Counting.{count_free-take, count_free-le}
use rockos.Memory.Laws.{
  IsValid, Handed, AllocateSpec, allocate_frame_inner-AllocateSpec, is_free-Takes,
}

true-ne-false : ◌≡◌ {A = Bool} true false → ⊥
true-ne-false e = cc

-- Freeing an index that is used, not 0 and in range is `mark_free` and one more in the counter; any
-- other call changes nothing.
abbrev frees : BitmapFrameAllocator → ℕ → Bool
frees a idx =
    ltb 0 idx && (ltb idx frame_bitmap_bits && (if is_free a.bitmap idx then false else true))

deallocate-skip :
    (a : BitmapFrameAllocator) (frame : ℕ)
    → frees a (frame / page_size) ≡ false
    → deallocate_frame_inner a frame ≡ a
unfolding deallocate_frame_inner
deallocate-skip a frame h = ground arith

deallocate-frees :
    (a : BitmapFrameAllocator) (frame : ℕ)
    → frees a (frame / page_size) ≡ true
    → deallocate_frame_inner a frame ≡ record a {
      bitmap = mark_free a.bitmap (frame / page_size);
      free_count = (a.free_count + 1) % 2 ^ 64;
    }
unfolding deallocate_frame_inner mark_free
deallocate-frees a frame h = ground arith

-- The bits after a call.
pub is_free-deallocate_frame_inner :
    (a : BitmapFrameAllocator) (frame j : ℕ)
    → IsBitmap a.bitmap
    → is_free (deallocate_frame_inner a frame).bitmap j
      ≡ (if frees a (frame / page_size) && frame / page_size == j then true else is_free a.bitmap j)
is_free-deallocate_frame_inner a frame j v = elim (Bool-cases (frees a (frame / page_size))) [
  | inl freed ↦
      rw (deallocate-frees a frame freed, freed)
        (is_free-mark_free a.bitmap (frame / page_size) v j (ground arith))
  | inr skipped ↦ rw (deallocate-skip a frame skipped, skipped) refl
]

idx-pos :
    (bitmap : List ℕ) (idx : ℕ) → is_free bitmap 0 ≡ false → is_free bitmap idx ≡ true → 0 < idx
idx-pos bitmap zero null free = absurd (true-ne-false (sym free ∙ null))
idx-pos bitmap (suc n) null free = omega arith

-- Giving a frame back keeps the allocator valid.
pub deallocate_frame_inner-IsValid :
    (a : BitmapFrameAllocator) (frame : ℕ) → IsValid a → IsValid (deallocate_frame_inner a frame)
deallocate_frame_inner-IsValid a frame v =
    let idx = frame / page_size in
    elim (Bool-cases (frees a idx)) [
      | inl freed ↦
          let inside : idx < frame_bitmap_bits = ground arith in
          let after = mark_free a.bitmap idx in
          let bits = λ (j : ℕ). is_free-mark_free a.bitmap idx v.bitmap j inside in
          let n =
            count_free-take after a.bitmap idx inside (λ j. ground (arith, bits j))
              (ground (arith, bits idx)) in
          let small = count_free-le after in
          rw (deallocate-frees a frame freed) (record {
            bitmap = mark_free-IsBitmap a.bitmap idx v.bitmap;
            counted = omega (arith, v.counted, n, small);
            null = ground (arith, bits 0, v.null);
          })
      | inr skipped ↦ rw (deallocate-skip a frame skipped) v
    ]

-- Of a successful call of the allocator.
pub allocate_frame_inner-Handed :
    (a : BitmapFrameAllocator) {frame : ℕ} {a' : BitmapFrameAllocator}
    → IsValid a
    → allocate_frame_inner a ≡ (some frame, a')
    → Handed a frame a'
allocate_frame_inner-Handed a v e = subst (AllocateSpec a) e (allocate_frame_inner-AllocateSpec a v)

-- A frame that a valid allocator has handed out and that is given back at once leaves every index
-- free or used as it was, the counter too.
pub deallocate_frame_inner-allocate_frame_inner :
    (a : BitmapFrameAllocator) {frame : ℕ} {a' : BitmapFrameAllocator} (j : ℕ)
    → IsValid a
    → allocate_frame_inner a ≡ (some frame, a')
    → let back = deallocate_frame_inner a' frame in
      (is_free back.bitmap j ≡ is_free a.bitmap j) × (back.free_count ≡ a.free_count)
deallocate_frame_inner-allocate_frame_inner a {frame} {a'} j v e =
    let idx = frame / page_size in
    let h = allocate_frame_inner-Handed a v e in
    let taken = is_free-Takes a.bitmap idx a'.bitmap idx v.bitmap h.takes in
    let there = is_free-Takes a.bitmap idx a'.bitmap j v.bitmap h.takes in
    let not_null = idx-pos a.bitmap idx v.null h.takes.free in
    let freed : frees a' idx ≡ true = ground (arith, h.takes.inside, not_null, taken) in
    (
      is_free-deallocate_frame_inner a' frame j h.valid.bitmap
          ∙ ground (arith, freed, there, h.takes.free),
      rw (deallocate-frees a' frame freed)
          (omega (arith, h.counter, v.counted, count_free-le a.bitmap)),
    )
