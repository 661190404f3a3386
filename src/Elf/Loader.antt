-- ===== src/Elf/Loader.antt =====
-- The loader of src/elf.rs: `load_elf_mapped` over the page table of Brk and the physical memory of
-- Paging.
pub mod Frames
pub mod Pages
pub mod Segments
pub mod Steps
pub mod Reference
pub mod Whole
pub mod Notes
pub mod Bounds
use Prim.Native.Nat.{bit_and}
use rockos.Prelude.{
  ℕ, zero, suc, ◌+◌, ◌-◌, ◌*◌, ◌/◌, ◌%◌, ◌^◌, min, ◌<◌, ◌≡◌, Bool, true, false, not, ◌&&◌, ◌||◌,
  Option, none, some, List, [], ◌∷◌, length, take, drop, get_or, ltb, leb, ◌==◌, if◌then◌else◌,
}
use rockos.Bytes.{from_le_bytes}
use rockos.Memory.{BitmapFrameAllocator, allocate_frame_inner, page_size}
use rockos.Brk.{Mapper, containing_address, pages_between, unmap_4k_and_free_bitmap}
use rockos.Mmap.{saturating_add}
use rockos.User.{UserImage, user_text_base}
use rockos.Paging.{Physical, Machine, zero_frame, translate_addr, write_user_byte, write_user_bytes}
use rockos.Elf.{
  ElfError, truncated, bad_elf, not_exec_dyn, not_x86_64, unexpected_phdr_size, phdr_oob,
  unsupported_align, frame_oom, map_to_failed, segment_file_oob, translate_failed, no_phdr_in_load,
  no_map, Result, ok, err, panicked, ◌>>=◌, ◌>>◌, fail_if, ExecArgs, ElfLoadedMeta,
}
use rockos.Elf.Headers.{
  field, ProgramHeader, header_at, ElfHeader, starts_with_magic, read_header, Loaded, max, lower_of,
  segment_flags, note_writable, holds_headers, virt_addr, checked, Plan, note_headers, plan_pages,
  plan_segment, nothing_loaded, finish,
}

module _ {T : Type 0} (M : Mapper T) where
  -- One turn of the loop over the pages of a segment.
  unfoldable pub map_zeroed_page : (page flags : ℕ) → Machine T → Result (Unit {0}) × Machine T
  map_zeroed_page page flags s =
      let (allocated, fa) = allocate_frame_inner s.allocator in
      elim allocated [
        | none ↦ (err frame_oom, record s { allocator = fa })
        | some frame ↦
            let ram = zero_frame s.ram frame in
            let (mapped, (t, fa')) = M.map_to s.pages page frame flags fa in
            (
              (if mapped then ok tt else err map_to_failed),
              record { pages = t; allocator = fa'; ram = ram },
            )
      ]

  unfoldable pub map_zeroed_pages : (n page flags : ℕ) → Machine T → Result (Unit {0}) × Machine T
  map_zeroed_pages zero page flags s = (ok tt, s)
  map_zeroed_pages (suc n) page flags s =
      let (r, s') = map_zeroed_page page flags s in
      elim r [
        | ok u ↦ map_zeroed_pages n (page + page_size) flags s'
        | err e ↦ (err e, s')
        | panicked ↦ (panicked, s')
      ]

module _ {T : Type 0} (M : Mapper T) (virt_new : ℕ → Option ℕ) where
  -- The loop over the bytes of a segment, `n` of them left, from `va` on and from `file_off` on in
  -- the file.
  unfoldable pub copy_segment :
      (image : List ℕ) (n va file_off : ℕ) → T → Physical → Result (Unit {0}) × Physical
  copy_segment image zero va file_off t ram = (ok tt, ram)
  copy_segment image (suc n) va file_off t ram = elim (leb (2 ^ 64) file_off) [
    | true ↦ (panicked, ram)
    | false ↦ elim (leb (length image) file_off) [
      | true ↦ (err segment_file_oob, ram)
      | false ↦ elim (checked va >>= virt_addr virt_new) [
        | panicked ↦ (panicked, ram)
        | err e ↦ (err e, ram)
        | ok v ↦
            let (written, ram') = write_user_byte M t ram v (get_or image file_off 0) in
            elim written [
              | true ↦ copy_segment image n (va + 1) (file_off + 1) t ram'
              | false ↦ (err translate_failed, ram')
            ]
      ]
    ]
  ]

  -- The pages of a segment, then its bytes.
  unfoldable pub place_segment :
      (image : List ℕ) → ProgramHeader → Plan → Machine T → Result (Unit {0}) × Machine T
  place_segment image h p s =
      let (r, s') =
        map_zeroed_pages M (pages_between p.first p.last) p.first (segment_flags h.p_flags) s in
      elim r [
        | ok u ↦
            let (c, ram) = copy_segment image h.p_filesz p.seg h.p_offset s'.pages s'.ram in
            (c, record s' { ram = ram })
        | err e ↦ (err e, s')
        | panicked ↦ (panicked, s')
      ]

  -- The body of the loop over the program headers.
  unfoldable pub load_segment :
      (image : List ℕ) (e_phoff bias : ℕ)
      → ProgramHeader
      → Loaded
      → Machine T
      → Result Loaded × Machine T
  load_segment image e_phoff bias h l s =
      if not (h.p_type == 1)
      then (ok l, s)
      else if not (h.p_align == 0) && not (h.p_align == 4096)
      then (err unsupported_align, s)
      else if h.p_memsz == 0
      then (ok l, s)
      else elim (plan_segment virt_new e_phoff bias h l) [
        | err e ↦ (err e, s)
        | panicked ↦ (panicked, s)
        | ok p ↦ let (r, s') = place_segment image h p s in (r >> ok p.loaded, s')
      ]

  -- The loop over the program headers, `n` of them left, from offset `off` on. An offset past 64 bits
  -- panics.
  unfoldable pub load_segments :
      (image : List ℕ) (e_phoff bias n off : ℕ) → Loaded → Machine T → Result Loaded × Machine T
  load_segments image e_phoff bias zero off l s = (ok l, s)
  load_segments image e_phoff bias (suc n) off l s = elim (leb (2 ^ 64) (off + 56)) [
    | true ↦ (panicked, s)
    | false ↦ elim (ltb (length image) (off + 56)) [
      | true ↦ (err phdr_oob, s)
      | false ↦
          let (r, s') = load_segment image e_phoff bias (header_at image off) l s in
          elim r [
            | ok l' ↦ load_segments image e_phoff bias n (off + 56) l' s'
            | err e ↦ (err e, s')
            | panicked ↦ (panicked, s')
          ]
    ]
  ]

  unfoldable pub load_elf_mapped :
      (image : List ℕ) (bias : ℕ) → Machine T → Result (ℕ × ElfLoadedMeta) × Machine T
  load_elf_mapped image bias s = elim (read_header image) [
    | err e ↦ (err e, s)
    | panicked ↦ (panicked, s)
    | ok eh ↦
        let (r, s') = load_segments image eh.e_phoff bias eh.e_phnum eh.e_phoff nothing_loaded s in
        (r >>= finish eh bias, s')
  ]
