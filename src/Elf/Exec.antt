-- ===== src/Elf/Exec.antt =====
-- Starting a program: `build_exec_stack`, `load_elf` and `load_elf_exec` of src/elf.rs, with
-- `unmap_old_image_best_effort` and `apply_user_meta`. USER_IMAGE_END and USER_RW_IMAGE_START are
-- those of the user image.
pub mod Starting
pub mod Unmapping
pub mod Clearing
pub mod Replacing
pub mod Failing
use rockos.Prelude.{
  ℕ, zero, suc, ◌+◌, ◌-◌, ◌*◌, ◌/◌, Bool, true, false, Option, none, some, List, ltb, if◌then◌else◌,
}
use rockos.Memory.{BitmapFrameAllocator, page_size}
use rockos.Brk.{Mapper, containing_address, unmap_page}
use rockos.User.{UserImage, user_text_base, stack_lo}
use rockos.Paging.{Machine, write_user_bytes}
use rockos.Elf.{ElfError, no_map, Result, ok, err, panicked, ◌>>=◌, ExecArgs, ElfLoadedMeta}
use rockos.Elf.Stack.{stack_image}
use rockos.Elf.Headers.{max, checked, virt_addr}
use rockos.Elf.Loader.{load_elf_mapped}

-- What starting a program changes.
pub record Program (T : Type 0) : Type 0 where
  pub machine : Machine T
  pub image : UserImage

abbrev pub apply_user_meta : ElfLoadedMeta → UserImage → UserImage
apply_user_meta meta u = record u {
  image_end = max meta.image_end (user_text_base + page_size);
  rw_image_start = meta.rw_min;
}

module _ {T : Type 0} (M : Mapper T) where
  unfoldable pub build_exec_stack : ElfLoadedMeta → ExecArgs → Machine T → Result ℕ × Machine T
  build_exec_stack meta args s = elim (stack_image meta args) [
    | err e ↦ (err e, s)
    | panicked ↦ (panicked, s)
    | ok v ↦
        let (written, ram) = write_user_bytes M s.pages s.ram stack_lo v in
        ((if written then ok stack_lo else err no_map), record s { ram = ram })
  ]

  module _ (virt_new : ℕ → Option ℕ) where
    -- The loop of `unmap_old_image_best_effort`, `n` rounds left, at `va`.
    unfoldable pub unmap_old_pages :
        (n va : ℕ) → T × BitmapFrameAllocator → Result (Unit {0}) × (T × BitmapFrameAllocator)
    unmap_old_pages zero va s = (ok tt, s)
    unmap_old_pages (suc n) va s = elim (virt_addr virt_new va) [
      | err e ↦ (err e, s)
      | panicked ↦ (panicked, s)
      | ok v ↦
          let s' = unmap_page M (containing_address v) s in
          elim (checked (va + page_size)) [
            | err e ↦ (err e, s')
            | panicked ↦ (panicked, s')
            | ok next ↦ unmap_old_pages n next s'
          ]
    ]

    -- The loop goes from USER_TEXT_BASE to `hi` page by page.
    unfoldable pub unmap_old_image_best_effort :
        (hi : ℕ) → Machine T → Result (Unit {0}) × Machine T
    unmap_old_image_best_effort hi s =
        let rounds = (hi - user_text_base + page_size - 1) / page_size in
        let (r, s') = unmap_old_pages rounds user_text_base (s.pages, s.allocator) in
        (r, record s { pages = s'.0; allocator = s'.1 })

    unfoldable pub load_elf : (image : List ℕ) (bias : ℕ) → Program T → Result ℕ × Program T
    load_elf image bias p =
        let (r, s) = load_elf_mapped M virt_new image bias p.machine in
        elim r [
          | err e ↦ (err e, record p { machine = s })
          | panicked ↦ (panicked, record p { machine = s })
          | ok l ↦ (ok l.0, record { machine = s; image = apply_user_meta l.1 p.image })
        ]

    unfoldable pub load_elf_exec :
        (image : List ℕ) (bias : ℕ) → ExecArgs → Program T → Result (ℕ × ℕ) × Program T
    load_elf_exec image bias args p =
        let (u, s) = unmap_old_image_best_effort p.image.image_end p.machine in
        elim u [
          | err e ↦ (err e, record p { machine = s })
          | panicked ↦ (panicked, record p { machine = s })
          | ok _ ↦
              let (r, s') = load_elf_mapped M virt_new image bias s in
              elim r [
                | err e ↦ (err e, record p { machine = s' })
                | panicked ↦ (panicked, record p { machine = s' })
                | ok l ↦
                    let (q, s'') = build_exec_stack l.1 args s' in
                    (
                      q >>= λ rsp. ok (l.0, rsp),
                      record { machine = s''; image = apply_user_meta l.1 p.image },
                    )
              ]
        ]
