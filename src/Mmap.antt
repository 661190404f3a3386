-- ===== src/Mmap.antt =====
-- The memory areas of a process: `sys_mmap` and `sys_munmap` of src/process.rs over the page table of
-- Brk. NEXT_MMAP and VM_AREA_NEXT_ID are fields of a record.
pub mod Mapping
pub mod Windows
pub mod Owning
mod Tests
use Prim.Native.Nat.{bit_and}
use rockos.Prelude.{
  ℕ, zero, suc, ◌+◌, ◌-◌, ◌*◌, ◌/◌, ◌%◌, ◌^◌, min, Bool, true, false, not, ◌&&◌, ◌||◌, Option, none,
  some, List, [], ◌∷◌, ◌++◌, ltb, leb, ◌==◌, if◌then◌else◌,
}
use rockos.Memory.{BitmapFrameAllocator, allocate_frame_inner, deallocate_frame_inner, page_size}
use rockos.Process.{
  VmArea, Process, ProcessTable, process_at, update_at, user_mmap_base, user_mmap_limit,
}
use rockos.Process.Areas.{area_end}
use rockos.Fs.{errno}
use rockos.Brk.{Mapper, Space, containing_address, with_pages, unmap_4k_and_free_bitmap}

pub record MmapState (T : Type 0) : Type 0 where
  pub space : Space T
  pub next_mmap : ℕ
  pub vm_area_next_id : ℕ

abbrev pub saturating_add : ℕ → ℕ → ℕ
saturating_add a b = min (a + b) (2 ^ 64 - 1)

-- The flag words of the x86_64 crate: PRESENT, USER_ACCESSIBLE, WRITABLE and NO_EXECUTE.
abbrev pub area_flags : (writable executable : Bool) → ℕ
area_flags writable executable =
    1 + 4 + (if writable then 2 else 0) + (if executable then 0 else 2 ^ 63)

abbrev pub writes : ℕ → Bool
writes prot = not (bit_and prot 2 == 0)

abbrev pub executes : ℕ → Bool
executes prot = not (bit_and prot 4 == 0)

abbrev pub new_area : (id virt_start pages prot : ℕ) → VmArea
new_area id virt_start pages prot = record {
  id = id;
  virt_start = virt_start;
  pages = pages;
  writable = writes prot;
  executable = executes prot;
}

abbrev pub is_area : (addr end : ℕ) → VmArea → Bool
is_area addr end a = a.virt_start == addr && area_end a == end

-- The `retain` of `sys_munmap` and the flag that it sets.
unfoldable pub retain : (addr end : ℕ) → List VmArea → List VmArea
retain addr end [] = []
retain addr end (a ∷ areas) =
    let rest = retain addr end areas in if is_area addr end a then rest else a ∷ rest

unfoldable pub hit : (addr end : ℕ) → List VmArea → Bool
hit addr end [] = false
hit addr end (a ∷ areas) = is_area addr end a || hit addr end areas

module _ {T : Type 0} (M : Mapper T) where
  -- One turn of the loop of `map_user_anon_pages`. false: no frame is left, or `map_to` has failed.
  unfoldable pub map_anon_page :
      (start flags : ℕ) → T × BitmapFrameAllocator → Bool × (T × BitmapFrameAllocator)
  map_anon_page start flags (t, fa) =
      let (allocated, fa') = allocate_frame_inner fa in
      elim allocated [
        | none ↦ (false, (t, fa'))
        | some frame ↦ M.map_to t (containing_address start) frame flags fa'
      ]

  unfoldable pub map_user_anon_pages :
      (page_count start flags : ℕ) → T × BitmapFrameAllocator → Bool × (T × BitmapFrameAllocator)
  map_user_anon_pages zero start flags s = (true, s)
  map_user_anon_pages (suc n) start flags s =
      let (mapped, s') = map_anon_page start flags s in
      elim mapped [
        | true ↦ map_user_anon_pages n (start + page_size) flags s'
        | false ↦ (false, s')
      ]

  unfoldable pub unmap_user_range :
      (page_count start : ℕ) → T × BitmapFrameAllocator → T × BitmapFrameAllocator
  unmap_user_range zero start s = s
  unmap_user_range (suc n) start s =
      unmap_user_range n (start + page_size) (unmap_4k_and_free_bitmap M s start)

  abbrev pub with_areas : Space T → (List VmArea → List VmArea) → Space T
  with_areas a f = record a {
    procs = update_at a.procs a.current_slot (λ p. record p { vm_areas = f p.vm_areas });
  }

  -- The end of `sys_mmap`, from the address that was chosen.
  unfoldable pub map_at : MmapState T → (addr n_pages prot : ℕ) → ℕ × MmapState T
  map_at m addr n_pages prot =
      let fl = area_flags (writes prot) (executes prot) in
      let (mapped, s) = map_user_anon_pages n_pages addr fl (m.space.pages, m.space.allocator) in
      let a = with_pages M m.space s in
      let area = new_area m.vm_area_next_id addr n_pages prot in
      if not mapped then (errno 12, record m { space = a }) else (
        addr,
        record m {
          space = with_areas a (λ areas. areas ++ area ∷ []);
          vm_area_next_id = (m.vm_area_next_id + 1) % 2 ^ 64;
        },
      )

  -- NEXT_MMAP is 64 bits wide and wraps; it moves on also where the call then fails.
  unfoldable pub sys_mmap : MmapState T → (addr len prot : ℕ) → ℕ × MmapState T
  sys_mmap m addr len prot =
      let n_pages = (len + page_size - 1) / page_size in
      let base = m.next_mmap in
      let m' = record m { next_mmap = (base + n_pages * page_size) % 2 ^ 64 } in
      if len == 0 || ltb (user_mmap_limit - user_mmap_base) len
      then (errno 22, m)
      else if addr == 0
      then (if ltb user_mmap_limit (saturating_add base (n_pages * page_size))
          then (errno 12, m')
          else map_at m' base n_pages prot)
      else if not (addr % page_size == 0)
      then (errno 22, m)
      else if ltb addr user_mmap_base || ltb user_mmap_limit (saturating_add addr len)
      then (errno 22, m)
      else map_at m addr n_pages prot

  unfoldable pub sys_munmap : Space T → (addr len : ℕ) → ℕ × Space T
  sys_munmap a addr len =
      let end = saturating_add addr len in
      if not (addr % page_size == 0) || len == 0
      then (errno 22, a)
      else elim (process_at a.procs a.current_slot) [
        | none ↦ (errno 22, a)
        | some p ↦
            if hit addr end p.vm_areas
            then (
              0,
              with_pages M (with_areas a (retain addr end))
                  (unmap_user_range (len / page_size) addr (a.pages, a.allocator)),
            )
            else (errno 22, a)
      ]
