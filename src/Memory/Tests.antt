-- ===== src/Memory/Tests.antt =====
-- The allocator at small inputs.
use rockos.Prelude.{ℕ, ◌+◌, ◌≡◌, refl, ◌∙◌, sym, ap, true, false, some, List, [], ◌∷◌, arith}
use rockos.Memory.{
  BitmapFrameAllocator, MemoryRegion, new, is_free, mark_free, all_used, allocate_from,
  allocate_frame_inner, deallocate_frame_inner, trailing_zeros,
}
use rockos.Memory.Bitmap.{mark_free-IsBitmap, is_free-mark_free}
use rockos.Memory.Counting.{count_free-take, count_free_none}
use rockos.Memory.Laws.{IsValid, AllocateSpec, allocate_frame_inner-AllocateSpec}
use rockos.Memory.Freeing.{deallocate_frame_inner-allocate_frame_inner}
use rockos.Memory.Booting.{available, new_lem, all_used-IsBitmap, is_free-all_used}

-- Usable memory with a hole, and a region that the boot loader keeps.
abbrev sample_map : List MemoryRegion
sample_map =
    record { start_frame_number = 0; end_frame_number = 200; usable = true }
    ∷ record { start_frame_number = 300; end_frame_number = 400; usable = false }
    ∷ []

new_lem_example :
    (is_free (new sample_map).bitmap 150 ≡ available sample_map 150) × IsValid (new sample_map)
new_lem_example = new_lem sample_map 150

-- Only frame 1 is free.
abbrev one_free : BitmapFrameAllocator
one_free = record { bitmap = mark_free all_used 1; total_usable = 1; free_count = 1 }

one_free-IsValid : IsValid one_free
one_free-IsValid =
    let bits = λ (j : ℕ). is_free-mark_free all_used 1 all_used-IsBitmap j (omega arith) in
    record {
      bitmap = mark_free-IsBitmap all_used 1 all_used-IsBitmap;
      counted = sym (
          count_free-take (mark_free all_used 1) all_used 1 (omega arith)
            (λ j. ground (arith, bits j, is_free-all_used j)) (bits 1)
          ∙ ap (λ n. n + 1) (count_free_none all_used is_free-all_used));
      null = bits 0 ∙ is_free-all_used 0;
    }

abbrev emptied : BitmapFrameAllocator
emptied = record { bitmap = all_used; total_usable = 1; free_count = 0 }

takes_frame_1 : allocate_frame_inner one_free ≡ (some 4096, emptied)
unfolding allocate_frame_inner allocate_from mark_free all_used trailing_zeros
takes_frame_1 = refl

allocate_frame_inner-AllocateSpec_example : AllocateSpec one_free (allocate_frame_inner one_free)
allocate_frame_inner-AllocateSpec_example =
    allocate_frame_inner-AllocateSpec one_free one_free-IsValid

deallocate_frame_inner-allocate_frame_inner_example :
    let back = deallocate_frame_inner emptied 4096 in
    (is_free back.bitmap 1 ≡ is_free one_free.bitmap 1) × (back.free_count ≡ 1)
deallocate_frame_inner-allocate_frame_inner_example =
    deallocate_frame_inner-allocate_frame_inner one_free 1 one_free-IsValid takes_frame_1
