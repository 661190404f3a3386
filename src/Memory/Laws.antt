-- ===== src/Memory/Laws.antt =====
-- What the allocator of src/memory.rs promises of each call.
use rockos.Prelude.{
  ℕ, ◌+◌, ◌-◌, ◌*◌, ◌/◌, ◌%◌, ◌^◌, ◌≡◌, refl, sym, ap, ◌∙◌, subst, false, Option, none, some, List,
  arith, ◌==◌, if◌then◌else◌,
}
use rockos.Memory.{
  BitmapFrameAllocator, is_free, allocate_from, allocate_frame_inner, count_free, page_size,
}
use rockos.Memory.Bitmap.{IsBitmap, mark_used-IsBitmap, is_free-mark_used}
use rockos.Memory.Counting.{count_free-take, count_free-le}
use rockos.Memory.Allocating.{Takes, Allocated, allocate_from-Allocated}

-- FREE_COUNT counts the free indices, and index 0 is none of them.
pub record IsValid (a : BitmapFrameAllocator) : Type 0 where
  pub bitmap : IsBitmap a.bitmap
  pub counted : a.free_count ≡ count_free a.bitmap
  pub null : is_free a.bitmap 0 ≡ false

-- What a call of the allocator gave: no frame and the same state, or a frame that was free and is
-- the lowest, now used, and a counter one less.
pub record Handed (a : BitmapFrameAllocator) (frame : ℕ) (a' : BitmapFrameAllocator) : Type 0 where
  pub aligned : frame ≡ frame / page_size * page_size
  pub takes : Takes a.bitmap (frame / page_size) a'.bitmap
  pub counter : a'.free_count + 1 ≡ a.free_count
  pub valid : IsValid a'

abbrev pub AllocateSpec : BitmapFrameAllocator → Option ℕ × BitmapFrameAllocator → Type 0
AllocateSpec a (none, a') = (a' ≡ a) × ((j : ℕ) → is_free a.bitmap j ≡ false)
AllocateSpec a (some frame, a') = Handed a frame a'

-- The bits after a frame has been taken.
pub is_free-Takes :
    (bitmap : List ℕ) (idx : ℕ) (after : List ℕ) (j : ℕ)
    → IsBitmap bitmap
    → Takes bitmap idx after
    → is_free after j ≡ (if idx == j then false else is_free bitmap j)
is_free-Takes bitmap idx after j v t =
    ap (λ l. is_free l j) t.marked ∙ is_free-mark_used bitmap idx v j t.inside

Takes-counted :
    (bitmap : List ℕ) (idx : ℕ) (after : List ℕ)
    → IsBitmap bitmap
    → Takes bitmap idx after
    → count_free bitmap ≡ count_free after + 1
Takes-counted bitmap idx after v t =
    count_free-take bitmap after idx t.inside (λ j. is_free-Takes bitmap idx after j v t) t.free

Takes-Handed :
    (a : BitmapFrameAllocator) (idx : ℕ) (after : List ℕ)
    → IsValid a
    → Takes a.bitmap idx after
    → Handed a
        (idx * page_size)
        (record a { bitmap = after; free_count = (a.free_count + 2 ^ 64 - 1) % 2 ^ 64 })
Takes-Handed a idx after v t =
    let e : idx * page_size / page_size ≡ idx = omega arith in
    let n = Takes-counted a.bitmap idx after v.bitmap t in
    let small = count_free-le a.bitmap in
    record {
      aligned = ap (λ k. k * page_size) (sym e);
      takes = subst (λ k. Takes a.bitmap k after) (sym e) t;
      counter = omega (arith, v.counted, n, small);
      valid = record {
        bitmap = subst IsBitmap (sym t.marked) (mark_used-IsBitmap a.bitmap idx v.bitmap);
        counted = omega (arith, v.counted, n, small);
        null = ground (arith, is_free-Takes a.bitmap idx after 0 v.bitmap t, v.null);
      };
    }

-- Every call on a valid allocator: no frame, with no index free and nothing changed; or a frame whose
-- index was the lowest free one and is now marked, the counter one less, the allocator valid.
pub allocate_frame_inner-AllocateSpec :
    (a : BitmapFrameAllocator) → IsValid a → AllocateSpec a (allocate_frame_inner a)
unfolding allocate_frame_inner
allocate_frame_inner-AllocateSpec a v =
    answer (allocate_from 0 a.bitmap) (allocate_from-Allocated a.bitmap v.bitmap)
  where
    answer :
        (o : Option (ℕ × List ℕ))
        → Allocated a.bitmap o
        → AllocateSpec a (elim o [
          | none ↦ (none, a)
          | some (frame_idx, bitmap) ↦ (
            some (frame_idx * page_size),
            record a { bitmap = bitmap; free_count = (a.free_count + 2 ^ 64 - 1) % 2 ^ 64 },
          )
        ])
    answer none none_free = (refl, none_free)
    answer (some (idx, after)) t = Takes-Handed a idx after v t
