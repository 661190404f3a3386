-- ===== src/Memory.antt =====
-- The bitmap allocator of src/memory.rs. A frame is its physical start address; the two atomic
-- counters TOTAL_USABLE and FREE_COUNT are fields beside the bitmap. The regions come from the
-- `bootloader` crate, which says of each whether it is usable.
pub mod Bits
pub mod Bitmap
pub mod Counting
pub mod Allocating
pub mod Freeing
pub mod Laws
pub mod Booting
mod Tests
use Prim.Native.Nat.{bit_and, bit_or}
use rockos.Prelude.{
  ℕ, zero, suc, ◌+◌, ◌-◌, ◌*◌, ◌/◌, ◌%◌, ◌^◌, Bool, true, false, ◌||◌, Option, none, some, List, [],
  ◌∷◌, get_or, set, replicate, leb, ◌==◌, if◌then◌else◌,
}

abbrev pub page_size : ℕ
page_size = 4096

abbrev pub bitmap_bytes : ℕ
bitmap_bytes = 8192

abbrev pub frame_bitmap_bits : ℕ
frame_bitmap_bits = bitmap_bytes * 8

pub record BitmapFrameAllocator : Type 0 where
  pub bitmap : List ℕ
  pub total_usable : ℕ
  pub free_count : ℕ

pub record MemoryRegion : Type 0 where
  pub start_frame_number : ℕ
  pub end_frame_number : ℕ
  pub usable : Bool

-- `!mask` on a byte.
abbrev pub complement : ℕ → ℕ
complement mask = 0xff - mask

unfoldable pub mark_free : List ℕ → ℕ → List ℕ
mark_free bitmap idx =
    if leb frame_bitmap_bits idx
    then bitmap
    else set bitmap (idx / 8) (bit_and (get_or bitmap (idx / 8) 0xff) (complement (2 ^ (idx % 8))))

unfoldable pub mark_used : List ℕ → ℕ → List ℕ
mark_used bitmap idx =
    if leb frame_bitmap_bits idx
    then bitmap
    else set bitmap (idx / 8) (bit_or (get_or bitmap (idx / 8) 0xff) (2 ^ (idx % 8)))

-- The test of one bit: 0 is free. A byte past the end, which panics in the source, reads as used.
unfoldable pub is_free : List ℕ → ℕ → Bool
is_free bitmap idx = bit_and (get_or bitmap (idx / 8) 0xff) (2 ^ (idx % 8)) == 0

-- The loop of `count_free` over the indices below `n`.
unfoldable pub count_free_below : List ℕ → ℕ → ℕ
count_free_below bitmap zero = 0
count_free_below bitmap (suc n) = count_free_below bitmap n + (if is_free bitmap n then 1 else 0)

unfoldable pub count_free : List ℕ → ℕ
count_free bitmap = count_free_below bitmap frame_bitmap_bits

-- The inner loop of `new`, over `n` frames from `f` on, with `total`.
unfoldable pub free_range : ℕ → ℕ → List ℕ × ℕ → List ℕ × ℕ
free_range f zero (bitmap, total) = (bitmap, total)
free_range f (suc n) (bitmap, total) =
    free_range (f + 1) n
      (if leb frame_bitmap_bits f then (bitmap, total) else (mark_free bitmap f, total + 1))

unfoldable pub free_regions : List MemoryRegion → List ℕ × ℕ → List ℕ × ℕ
free_regions [] acc = acc
free_regions (region ∷ regions) acc = free_regions regions (
    if region.usable
    then free_range region.start_frame_number (region.end_frame_number - region.start_frame_number)
        acc
    else acc)

-- `n` frames from `f` on.
unfoldable pub reserve_range : ℕ → ℕ → List ℕ → List ℕ
reserve_range f zero bitmap = bitmap
reserve_range f (suc n) bitmap = reserve_range (f + 1) n (mark_used bitmap f)

abbrev pub isa_video_lo : ℕ
isa_video_lo = 0xa0000

abbrev pub isa_video_hi : ℕ
isa_video_hi = 0xc0000

unfoldable pub all_used : List ℕ
all_used = replicate bitmap_bytes 0xff

unfoldable pub new : List MemoryRegion → BitmapFrameAllocator
new memory_map =
    let (freed, total) = free_regions memory_map (all_used, 0) in
    let vga_first = isa_video_lo / page_size in
    let vga_end = isa_video_hi / page_size in
    let bitmap = reserve_range vga_first (vga_end - vga_first) (mark_used freed 0) in
    record { bitmap = bitmap; total_usable = total; free_count = count_free bitmap }

-- `u8::trailing_zeros`, over the bits from `i` on, `n` of them left.
unfoldable pub zeros_from : ℕ → ℕ → ℕ → ℕ
zeros_from i zero byte = i
zeros_from i (suc n) byte =
    let rest = zeros_from (i + 1) n byte in if bit_and byte (2 ^ i) == 0 then rest else i

unfoldable pub trailing_zeros : ℕ → ℕ
unfolding zeros_from
trailing_zeros byte = zeros_from 0 8 byte

-- A byte that the loop passes over stays in front of what it does to the others.
unfoldable pub pass_over : ℕ → Option (ℕ × List ℕ) → Option (ℕ × List ℕ)
pass_over byte none = none
pass_over byte (some (frame_idx, bytes)) = some (frame_idx, byte ∷ bytes)

-- The loop of `allocate_frame_inner` over the bytes from index `i` on: the frame's index and the
-- bytes afterwards.
unfoldable pub allocate_from : ℕ → List ℕ → Option (ℕ × List ℕ)
allocate_from i [] = none
allocate_from i (byte ∷ bytes) =
    let rest = allocate_from (i + 1) bytes in
    let bit = trailing_zeros (complement byte) in
    let taken = bit_or byte (2 ^ bit) in
    let frame_idx = i * 8 + bit in
    if byte == 0xff || leb 8 bit
    then pass_over byte rest
    else if leb frame_bitmap_bits frame_idx
    then pass_over (bit_and taken (complement (2 ^ bit))) rest
    else some (frame_idx, taken ∷ bytes)

-- FREE_COUNT is 64 bits wide and wraps.
unfoldable pub allocate_frame_inner : BitmapFrameAllocator → Option ℕ × BitmapFrameAllocator
allocate_frame_inner a = elim (allocate_from 0 a.bitmap) [
  | none ↦ (none, a)
  | some (frame_idx, bitmap) ↦ (
    some (frame_idx * page_size),
    record a { bitmap = bitmap; free_count = (a.free_count + 2 ^ 64 - 1) % 2 ^ 64 },
  )
]

unfoldable pub deallocate_frame_inner : BitmapFrameAllocator → ℕ → BitmapFrameAllocator
deallocate_frame_inner a frame =
    let idx = frame / page_size in
    if leb frame_bitmap_bits idx || idx == 0
    then a
    else if is_free a.bitmap idx
    then a
    else record a {
      bitmap =
          set a.bitmap (idx / 8)
            (bit_and (get_or a.bitmap (idx / 8) 0xff) (complement (2 ^ (idx % 8))));
      free_count = (a.free_count + 1) % 2 ^ 64;
    }
