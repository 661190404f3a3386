-- ===== src/Brk.antt =====
-- The heap of a process: `sys_brk` of src/process.rs with its loops over pages, and the unmapping of
-- src/paging.rs. The page table of the x86_64 crate is a parameter, an interface of three operations
-- with the laws that the code relies on. A page and a frame of the interface are numbered by their
-- start address.
pub mod Growing
pub mod Shrinking
pub mod Heap
pub mod PageFunction
mod Tests
use rockos.Prelude.{
  ℕ, zero, suc, ◌+◌, ◌-◌, ◌*◌, ◌/◌, ◌^◌, ◌≡◌, ◌≢◌, Bool, true, false, not, ◌||◌, Option, none, some,
  List, ltb, leb, ◌==◌, if◌then◌else◌,
}
use rockos.Memory.{BitmapFrameAllocator, allocate_frame_inner, deallocate_frame_inner, page_size}
use rockos.Process.{Process, ProcessTable, process_at, update_at, user_brk_base, user_brk_limit}
use rockos.Fs.{errno}

abbrev pub is_some : Option ℕ → Bool
is_some none = false
is_some (some x) = true

-- `map_to` takes frames for new levels of the table from the allocator; its Boolean is `is_ok`.
-- `unmap` returns the frame of the page, or none for an error. An operation on one page leaves the
-- translation of every other.
pub record Mapper (T : Type 0) : Type 0 where
  pub translate : T → (page : ℕ) → Option ℕ
  pub map_to : T → (page frame flags : ℕ) → BitmapFrameAllocator → Bool × (T × BitmapFrameAllocator)
  pub unmap : T → (page : ℕ) → Option ℕ × T
  pub map_to_ok :
      (t : T) (page frame flags : ℕ) (fa : BitmapFrameAllocator)
      → (map_to t page frame flags fa).0 ≡ true
      → translate (map_to t page frame flags fa).1.0 page ≡ some frame
  pub map_to_other :
      (t : T) (page frame flags : ℕ) (fa : BitmapFrameAllocator) (other : ℕ)
      → other ≢ page
      → translate (map_to t page frame flags fa).1.0 other ≡ translate t other
  pub unmap_other :
      (t : T) (page other : ℕ) → other ≢ page → translate (unmap t page).1 other ≡ translate t other

-- PRESENT, WRITABLE, USER_ACCESSIBLE and NO_EXECUTE.
abbrev pub heap_flags : ℕ
heap_flags = 1 + 2 + 4 + 2 ^ 63

-- `a` is a power of two: `& !(a - 1)` clears the remainder.
abbrev pub align_up : ℕ → ℕ → ℕ
align_up x a = (x + a - 1) / a * a

-- The start of the page that holds an address.
abbrev pub containing_address : ℕ → ℕ
containing_address addr = addr / page_size * page_size

-- How many pages `Page::range_inclusive` runs through.
abbrev pub pages_between : ℕ → ℕ → ℕ
pages_between first last = (last + page_size - first) / page_size

module _ {T : Type 0} (M : Mapper T) where
  -- One turn of the loop of `map_brk_grow`. false: no frame is left, or `map_to` has failed.
  unfoldable pub map_page :
      (page flags : ℕ) → T × BitmapFrameAllocator → Bool × (T × BitmapFrameAllocator)
  map_page page flags (t, fa) =
      if is_some (M.translate t page)
      then (true, (t, fa))
      else let (allocated, fa') = allocate_frame_inner fa in
        elim allocated [ none ↦ (false, (t, fa')) | some frame ↦ M.map_to t page frame flags fa' ]

  unfoldable pub map_pages :
      (n page flags : ℕ) → T × BitmapFrameAllocator → Bool × (T × BitmapFrameAllocator)
  map_pages zero page flags s = (true, s)
  map_pages (suc n) page flags s =
      let (mapped, s') = map_page page flags s in
      elim mapped [ true ↦ map_pages n (page + page_size) flags s' | false ↦ (false, s') ]

  unfoldable pub map_brk_grow :
      (old_end new_end flags : ℕ) → T × BitmapFrameAllocator → Bool × (T × BitmapFrameAllocator)
  map_brk_grow old_end new_end flags s =
      let first = containing_address old_end in
      let last = containing_address (new_end - 1) in
      map_pages (pages_between first last) first flags s

  unfoldable pub unmap_4k_and_free_bitmap :
      T × BitmapFrameAllocator → (virt : ℕ) → T × BitmapFrameAllocator
  unmap_4k_and_free_bitmap (t, fa) virt =
      let (unmapped, t') = M.unmap t (containing_address virt) in
      elim unmapped [ none ↦ (t', fa) | some frame ↦ (t', deallocate_frame_inner fa frame) ]

  -- One turn of the loop of `map_brk_shrink`, and the loop.
  unfoldable pub unmap_page : (page : ℕ) → T × BitmapFrameAllocator → T × BitmapFrameAllocator
  unmap_page page s = if is_some (M.translate s.0 page) then unmap_4k_and_free_bitmap s page else s

  unfoldable pub unmap_pages : (n page : ℕ) → T × BitmapFrameAllocator → T × BitmapFrameAllocator
  unmap_pages zero page s = s
  unmap_pages (suc n) page s = unmap_pages n (page + page_size) (unmap_page page s)

  unfoldable pub map_brk_shrink :
      (new_end old_end : ℕ) → T × BitmapFrameAllocator → T × BitmapFrameAllocator
  map_brk_shrink new_end old_end s =
      let first_page_lo = align_up new_end page_size in
      if leb old_end new_end || ltb new_end user_brk_base
      then s
      else if leb old_end first_page_lo
      then s
      else unmap_pages
          (pages_between (containing_address first_page_lo) (containing_address (old_end - 1)))
          (containing_address first_page_lo) s

-- What `sys_brk` works on: the process table, the active page table and the frame allocator.
pub record Space (T : Type 0) : Type 0 where
  pub procs : ProcessTable
  pub current_slot : ℕ
  pub pages : T
  pub allocator : BitmapFrameAllocator

module _ {T : Type 0} (M : Mapper T) where
  abbrev pub with_pages : Space T → T × BitmapFrameAllocator → Space T
  with_pages a (t, fa) = record a { pages = t; allocator = fa }

  abbrev pub with_brk_end : Space T → ℕ → Space T
  with_brk_end a addr = record a {
    procs = update_at a.procs a.current_slot (λ p. record p { brk_end = addr });
  }

  -- `sys_brk` for a process whose heap ends at `old`.
  unfoldable pub brk_from : Space T → (old addr : ℕ) → ℕ × Space T
  brk_from a old addr =
      if addr == 0
      then (old, a)
      else if ltb addr user_brk_base || ltb user_brk_limit addr
      then (errno 12, a)
      else if ltb addr old
      then (
        addr,
        with_brk_end (with_pages a (map_brk_shrink M addr old (a.pages, a.allocator))) addr,
      )
      else if addr == old
      then (addr, a)
      else let (grown, s) = map_brk_grow M old addr heap_flags (a.pages, a.allocator) in
        if grown then (addr, with_brk_end (with_pages a s) addr) else (errno 12, with_pages a s)

  unfoldable pub sys_brk : Space T → (addr : ℕ) → ℕ × Space T
  sys_brk a addr = elim (process_at a.procs a.current_slot) [
    | none ↦ (errno 12, a)
    | some p ↦ brk_from a p.brk_end addr
  ]
