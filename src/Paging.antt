-- ===== src/Paging.antt =====
-- User memory as the kernel reaches it: `translate_addr` of the x86_64 crate gives the physical
-- address, and src/memory.rs adds the offset of the window on physical memory. Physical memory is a
-- function from addresses to bytes. The functions are those of src/elf.rs and src/process.rs.
pub mod Access
pub mod Copying
use rockos.Prelude.{
  ℕ, zero, suc, ◌+◌, ◌%◌, Bool, true, false, Option, none, some, List, [], ◌∷◌, ltb, leb, ◌==◌,
  ◌&&◌, if◌then◌else◌,
}
use rockos.Memory.{BitmapFrameAllocator, page_size}
use rockos.Brk.{Mapper, containing_address}

abbrev pub Physical : Type 0
Physical = ℕ → ℕ

unfoldable pub poke : Physical → (phys b : ℕ) → Physical
poke ram phys b a = if a == phys then b else ram a

-- The page of zeros that `write_bytes` leaves in a frame.
unfoldable pub zero_frame : Physical → (frame : ℕ) → Physical
zero_frame ram frame a = if leb frame a && ltb a (frame + page_size) then 0 else ram a

-- The active page table, the frame allocator and physical memory.
pub record Machine (T : Type 0) : Type 0 where
  pub pages : T
  pub allocator : BitmapFrameAllocator
  pub ram : Physical

module _ {T : Type 0} (M : Mapper T) where
  -- Within a page of 4 KiB the offset is kept.
  unfoldable pub translate_addr : T → (va : ℕ) → Option ℕ
  translate_addr t va = elim (M.translate t (containing_address va)) [
    | none ↦ none
    | some frame ↦ some (frame + va % page_size)
  ]

  -- A user byte as a program sees it; none is a page fault.
  unfoldable pub read_user : T → Physical → (va : ℕ) → Option ℕ
  read_user t ram va = elim (translate_addr t va) [ none ↦ none | some phys ↦ some (ram phys) ]

  -- false: "no map".
  unfoldable pub write_user_byte : T → Physical → (va b : ℕ) → Bool × Physical
  write_user_byte t ram va b = elim (translate_addr t va) [
    | none ↦ (false, ram)
    | some phys ↦ (true, poke ram phys b)
  ]

  -- The loop over the bytes of `v` at the end of `build_exec_stack`.
  unfoldable pub write_user_bytes : T → Physical → (va : ℕ) → List ℕ → Bool × Physical
  write_user_bytes t ram va [] = (true, ram)
  write_user_bytes t ram va (b ∷ bs) =
      let (written, ram') = write_user_byte t ram va b in
      elim written [ true ↦ write_user_bytes t ram' (va + 1) bs | false ↦ (false, ram') ]

  -- `copy_user_pages` of src/process.rs.
  unfoldable pub copy_user_pages : T → Physical → (src dst len : ℕ) → Bool × Physical
  copy_user_pages t ram src dst zero = (true, ram)
  copy_user_pages t ram src dst (suc len) = elim (translate_addr t src) [
    | none ↦ (false, ram)
    | some ps ↦
        let (written, ram') = write_user_byte t ram dst (ram ps) in
        elim written [
          | true ↦ copy_user_pages t ram' (src + 1) (dst + 1) len
          | false ↦ (false, ram')
        ]
  ]
