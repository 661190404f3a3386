-- ===== src/Memory/Booting.antt =====
-- The bitmap that `new` builds from the boot loader's memory map.
use rockos.Prelude.{
  ℕ, zero, suc, ◌+◌, ◌-◌, ◌/◌, ◌%◌, ◌≤◌, ◌≡◌, refl, ◌∙◌, Bool, false, List, [], ◌∷◌, arith, leb,
  ltb, ◌==◌, ◌&&◌, ◌||◌, not, Bool-cases, inl, inr, replicate, length-replicate, All, get_or,
}
use rockos.Memory.{
  MemoryRegion, new, is_free, mark_used, mark_free, free_range, free_regions, reserve_range,
  all_used, count_free, frame_bitmap_bits, bitmap_bytes,
}
use rockos.Memory.Bits.{full_byte}
use rockos.Memory.Bitmap.{
  IsBitmap, IsByte, mark_used-IsBitmap, mark_free-IsBitmap, is_free-mark_used, is_free-mark_free,
}
use rockos.Memory.Laws.{IsValid}

-- A usable region of the map holds the frame.
abbrev pub in_usable : List MemoryRegion → ℕ → Bool
in_usable [] j = false
in_usable (r ∷ rs) j =
    (r.usable && (leb r.start_frame_number j && ltb j r.end_frame_number)) || in_usable rs j

abbrev pub tracked : ℕ → Bool
tracked j = ltb j frame_bitmap_bits

-- What the allocator may hand out: tracked and usable, not frame 0, not the video memory from
-- 0xA0000 up to 0xC0000.
abbrev pub available : List MemoryRegion → ℕ → Bool
available map j = tracked j && (in_usable map j && (not (j == 0) && (ltb j 160 || leb 192 j)))

replicate-All : (n : ℕ) → All IsByte (replicate n 0xff)
replicate-All zero = tt
replicate-All (suc n) = (omega arith, replicate-All n)

get_or-replicate : (n i : ℕ) → get_or {A = ℕ} (replicate n 0xff) i 0xff ≡ 0xff
get_or-replicate zero i = refl
get_or-replicate (suc n) zero = refl
get_or-replicate (suc n) (suc i) = get_or-replicate n i

pub all_used-IsBitmap : IsBitmap all_used
unfolding all_used
all_used-IsBitmap = record {
  size = length-replicate {A = ℕ} bitmap_bytes 0xff;
  bytes = replicate-All bitmap_bytes;
}

pub is_free-all_used : (j : ℕ) → is_free all_used j ≡ false
unfolding is_free all_used
is_free-all_used j = full_byte _ (j % 8) (get_or-replicate bitmap_bytes (j / 8)) (omega arith)

free_range_lem :
    (f n : ℕ) (bitmap : List ℕ) (total j : ℕ)
    → IsBitmap bitmap
    → let after = (free_range f n (bitmap, total)).0 in
      IsBitmap after
      × (is_free after j ≡ ((tracked j && (leb f j && ltb j (f + n))) || is_free bitmap j))
unfolding free_range
free_range_lem f zero bitmap total j v = (v, ground arith)
free_range_lem f (suc n) bitmap total j v = elim (Bool-cases (leb frame_bitmap_bits f)) [
  | inl outside ↦
      rw (outside, free_range)
        (let r = free_range_lem (f + 1) n bitmap total j v in (r.0, r.1 ∙ ground arith))
  | inr inside ↦
      rw (inside, free_range)
        (let r =
            free_range_lem (f + 1) n (mark_free bitmap f) (total + 1) j
              (mark_free-IsBitmap bitmap f v) in
          (r.0, r.1 ∙ ground (arith, is_free-mark_free bitmap f v j (ground arith))))
]

reserve_range_lem :
    (f n : ℕ) (bitmap : List ℕ) (j : ℕ)
    → IsBitmap bitmap
    → f + n ≤ frame_bitmap_bits
    → let after = reserve_range f n bitmap in
      IsBitmap after × (is_free after j ≡ (not (leb f j && ltb j (f + n)) && is_free bitmap j))
unfolding reserve_range
reserve_range_lem f zero bitmap j v h = (v, ground arith)
reserve_range_lem f (suc n) bitmap j v h =
    let r =
      reserve_range_lem (f + 1) n (mark_used bitmap f) j (mark_used-IsBitmap bitmap f v)
        (omega arith) in
    (r.0, r.1 ∙ ground (arith, is_free-mark_used bitmap f v j (omega arith)))

-- The regions one after another.
free_regions_lem :
    (map : List MemoryRegion) (bitmap : List ℕ) (total j : ℕ)
    → IsBitmap bitmap
    → let after = (free_regions map (bitmap, total)).0 in
      IsBitmap after × (is_free after j ≡ ((tracked j && in_usable map j) || is_free bitmap j))
unfolding free_regions
free_regions_lem [] bitmap total j v = (v, ground arith)
free_regions_lem (r ∷ rs) bitmap total j v = elim (Bool-cases r.usable) [
  | inl usable ↦
      let s = r.start_frame_number in
      let n = r.end_frame_number - r.start_frame_number in
      let (bitmap', total') = free_range s n (bitmap, total) in
      let one = free_range_lem s n bitmap total j v in
      let rest = free_regions_lem rs bitmap' total' j one.0 in
      rw usable (rest.0, rest.1 ∙ ground (arith, one.1))
  | inr other ↦ rw other (free_regions_lem rs bitmap total j v)
]

new-counted : (map : List MemoryRegion) → (new map).free_count ≡ count_free (new map).bitmap
unfolding new
new-counted map = refl

new-bits :
    (map : List MemoryRegion) (j : ℕ)
    → IsBitmap (new map).bitmap × (is_free (new map).bitmap j ≡ available map j)
unfolding new
new-bits map j =
    let freed = (free_regions map (all_used, 0)).0 in
    let one = free_regions_lem map all_used 0 j all_used-IsBitmap in
    let v = mark_used-IsBitmap freed 0 one.0 in
    let two = is_free-mark_used freed 0 one.0 j (omega arith) in
    let three = reserve_range_lem 160 32 (mark_used freed 0) j v (omega arith) in
    (three.0, three.1 ∙ ground (arith, two, one.1, is_free-all_used j))

-- The allocator that `new` builds from a memory map is valid (FREE_COUNT is the number of its free
-- indices), and its free indices are exactly the available frames of the map.
pub new_lem :
    (map : List MemoryRegion) (j : ℕ)
    → (is_free (new map).bitmap j ≡ available map j) × IsValid (new map)
new_lem map j = (
  (new-bits map j).1,
  record {
    bitmap = (new-bits map 0).0;
    counted = new-counted map;
    null = (new-bits map 0).1 ∙ ground arith;
  },
)
