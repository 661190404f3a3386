-- ===== src/Elf/Exec/Clearing.antt =====
-- What `unmap_old_image_best_effort` of src/elf.rs leaves of user memory.
use rockos.Prelude.{
  ℕ, zero, suc, ◌+◌, ◌-◌, ◌*◌, ◌/◌, ◌%◌, ◌<◌, ◌≡◌, ◌≢◌, ◌∙◌, refl, sym, ap, true, false, Option,
  none, some, arith, ltb, leb, ◌==◌, ◌&&◌, if◌then◌else◌, Bool-cases, Option-cases, inl, inr,
}
use rockos.Memory.{BitmapFrameAllocator, deallocate_frame_inner, page_size}
use rockos.Memory.Freeing.{is_free-deallocate_frame_inner, deallocate_frame_inner-IsValid}
use rockos.Brk.{
  Mapper, is_some, containing_address, unmap_page, unmap_pages, unmap_4k_and_free_bitmap,
}
use rockos.User.{user_text_base}
use rockos.Paging.{Physical, Machine, read_user}
use rockos.Elf.Loader.Frames.{Owned, read_user-absent, read_user-same}
use rockos.Elf.Exec.Unmapping.{machine_of, without_image}

-- `unmap` of a page that is mapped gives its frame and leaves the page unmapped.
pub record UnmapsFrames {T : Type 0} (M : Mapper T) : Type 0 where
  pub gives :
      (t : T) (page frame : ℕ) → M.translate t page ≡ some frame → (M.unmap t page).0 ≡ some frame
  pub gone :
      (t : T) (page frame : ℕ)
      → M.translate t page ≡ some frame
      → M.translate (M.unmap t page).1 page ≡ none

-- User memory without `n` pages from `page` on.
unfoldable pub cleared_at : (page n : ℕ) → (read : ℕ → Option ℕ) → ℕ → Option ℕ
cleared_at page n read va = if leb page va && ltb va (page + n * page_size) then none else read va

cleared_at-suc :
    (page n va : ℕ) (read read' : ℕ → Option ℕ)
    → read' va ≡ cleared_at page 1 read va
    → cleared_at (page + page_size) n read' va ≡ cleared_at page (suc n) read va
unfolding cleared_at
cleared_at-suc page n va read read' e = ground (arith, e)

module _ {T : Type 0} (M : Mapper T) (unmaps : UnmapsFrames M) where
  -- User memory without those pages, with the invariant kept.
  pub record Cleared (s : Machine T) (page n : ℕ) (s' : Machine T) : Type 0 where
    pub owned : Owned M s'
    pub reads :
        (va : ℕ) → read_user M s'.pages s'.ram va ≡ cleared_at page n (read_user M s.pages s.ram) va

  unmap_page-mapped :
      (t : T) (fa : BitmapFrameAllocator) (page frame : ℕ)
      → page % page_size ≡ 0
      → M.translate t page ≡ some frame
      → unmap_page M page (t, fa) ≡ ((M.unmap t page).1, deallocate_frame_inner fa frame)
  unfolding unmap_page unmap_4k_and_free_bitmap
  unmap_page-mapped t fa page frame start e =
      let at : containing_address page ≡ page = omega arith in
      let given = unmaps.gives t page frame e in
      ap (λ o. if is_some o then unmap_4k_and_free_bitmap M (t, fa) page else (t, fa)) e
      ∙ ap
          (λ k. elim (M.unmap t k).0 [
            | none ↦ ((M.unmap t k).1, fa)
            | some f ↦ ((M.unmap t k).1, deallocate_frame_inner fa f)
          ])
          at
      ∙ ap
          (λ o. elim o [
            | none ↦ ((M.unmap t page).1, fa)
            | some f ↦ ((M.unmap t page).1, deallocate_frame_inner fa f)
          ])
          given

  unmap_page-absent :
      (t : T) (fa : BitmapFrameAllocator) (page : ℕ)
      → M.translate t page ≡ none
      → unmap_page M page (t, fa) ≡ (t, fa)
  unfolding unmap_page
  unmap_page-absent t fa page e =
      ap (λ o. if is_some o then unmap_4k_and_free_bitmap M (t, fa) page else (t, fa)) e

  -- Every address of a page that is not mapped.
  read_user-unmapped :
      (t : T) (ram : Physical) (page va : ℕ)
      → page % page_size ≡ 0
      → M.translate t page ≡ none
      → (leb page va && ltb va (page + 1 * page_size)) ≡ true
      → read_user M t ram va ≡ none
  read_user-unmapped t ram page va start e inside =
      let at : page ≡ containing_address va = ground arith in
      read_user-absent M t ram va (ap (M.translate t) (sym at) ∙ e)

  still_mapped :
      (t : T) (page frame p f : ℕ)
      → M.translate t page ≡ some frame
      → M.translate (M.unmap t page).1 p ≡ some f
      → (p ≢ page) × (M.translate t p ≡ some f)
  still_mapped t page frame p f e x =
      let off : p ≢ page = λ at.
        (let r : none ≡ some f =
            sym (unmaps.gone t page frame e) ∙ ap (M.translate (M.unmap t page).1) (sym at) ∙ x in
          cc) in
      (off, sym (M.unmap_other t page p off) ∙ x)

  unmapped-Owned :
      (t : T) (fa : BitmapFrameAllocator) (ram : Physical) (page frame : ℕ)
      → Owned M (machine_of ram (t, fa))
      → M.translate t page ≡ some frame
      → Owned M (machine_of ram ((M.unmap t page).1, deallocate_frame_inner fa frame))
  unmapped-Owned t fa ram page frame o e =
      let left : (p f : ℕ)
          → M.translate (M.unmap t page).1 p ≡ some f
          → (p ≢ page) × (M.translate t p ≡ some f) =
        λ p f x. still_mapped t page frame p f e x in
      record {
        valid = deallocate_frame_inner-IsValid fa frame o.valid;
        distinct = record {
          aligned = λ p f x. o.distinct.aligned p f (left p f x).1;
          unshared = λ p q f x y. o.distinct.unshared p q f (left p f x).1 (left q f y).1;
        };
        held = λ p f x.
            let (off, old) = left p f x in
            let used = o.held p f old in
            let apart : f ≢ frame =
              λ same. off (o.distinct.unshared p page f old (e ∙ ap some (sym same))) in
            let a = o.distinct.aligned p f old in
            let b = o.distinct.aligned page frame e in
            let bit = is_free-deallocate_frame_inner fa frame (f / page_size) o.valid.bitmap in
            let other : (frame / page_size == f / page_size) ≡ false = ground arith in
            ground (arith, bit, used, other);
      }

  unmap_page-Cleared :
      (t : T) (fa : BitmapFrameAllocator) (ram : Physical) (page : ℕ)
      → Owned M (machine_of ram (t, fa))
      → page % page_size ≡ 0
      → Cleared (machine_of ram (t, fa)) page 1 (machine_of ram (unmap_page M page (t, fa)))
  unfolding cleared_at
  unmap_page-Cleared t fa ram page o start = elim (Option-cases (M.translate t page)) [
    | inl e ↦ rw (unmap_page-absent t fa page e) (record {
      owned = o;
      reads = λ va. elim (Bool-cases (leb page va && ltb va (page + 1 * page_size))) [
        | inl inside ↦ rw inside (read_user-unmapped t ram page va start e inside)
        | inr outside ↦ rw outside refl
      ];
    })
    | inr (f, e) ↦
        let t' = (M.unmap t page).1 in
        rw (unmap_page-mapped t fa page f start e) (record {
          owned = unmapped-Owned t fa ram page f o e;
          reads = λ va. elim (Bool-cases (leb page va && ltb va (page + 1 * page_size))) [
            | inl inside ↦
                rw inside (read_user-unmapped t' ram page va start (unmaps.gone t page f e) inside)
            | inr outside ↦
                let off : containing_address va ≢ page = λ p. ground arith in
                rw outside
                  (read_user-same M t t' ram va (M.unmap_other t page (containing_address va) off))
          ];
        })
  ]

  unmap_pages-Cleared :
      (n : ℕ) (t : T) (fa : BitmapFrameAllocator) (ram : Physical) (page : ℕ)
      → Owned M (machine_of ram (t, fa))
      → page % page_size ≡ 0
      → Cleared (machine_of ram (t, fa)) page n (machine_of ram (unmap_pages M n page (t, fa)))
  unfolding unmap_pages cleared_at
  unmap_pages-Cleared zero t fa ram page o start = record { owned = o; reads = λ va. ground arith }
  unmap_pages-Cleared (suc n) t fa ram page o start =
      let s' = unmap_page M page (t, fa) in
      let f = unmap_page-Cleared t fa ram page o start in
      let z = unmap_pages-Cleared n s'.0 s'.1 ram (page + page_size) f.owned (omega arith) in
      record {
        owned = z.owned;
        reads = λ va.
            z.reads va
            ∙ cleared_at-suc page n va (read_user M t ram) (read_user M s'.0 ram) (f.reads va);
      }

  unmap_page-other :
      (t : T) (fa : BitmapFrameAllocator) (page other : ℕ)
      → page % page_size ≡ 0
      → other ≢ page
      → M.translate (unmap_page M page (t, fa)).0 other ≡ M.translate t other
  unmap_page-other t fa page other start off = elim (Option-cases (M.translate t page)) [
    | inl e ↦ ap (λ s. M.translate s.0 other) (unmap_page-absent t fa page e)
    | inr (f, e) ↦
        ap (λ s. M.translate s.0 other) (unmap_page-mapped t fa page f start e)
        ∙ M.unmap_other t page other off
  ]

  unmap_pages-below :
      (n : ℕ) (t : T) (fa : BitmapFrameAllocator) (page other : ℕ)
      → page % page_size ≡ 0
      → other < page
      → M.translate (unmap_pages M n page (t, fa)).0 other ≡ M.translate t other
  unfolding unmap_pages
  unmap_pages-below zero t fa page other start under = refl
  unmap_pages-below (suc n) t fa page other start under =
      let s' = unmap_page M page (t, fa) in
      unmap_pages-below n s'.0 s'.1 (page + page_size) other (omega arith) (omega arith)
      ∙ unmap_page-other t fa page other start (omega arith)

  pub without_image-below :
      (hi page : ℕ) (s : Machine T)
      → page < user_text_base
      → M.translate (without_image M hi s).pages page ≡ M.translate s.pages page
  without_image-below hi page s under =
      unmap_pages-below ((hi - user_text_base + page_size - 1) / page_size) s.pages s.allocator
        user_text_base page (omega arith) under

  -- How many pages the loop goes through.
  abbrev pub old_pages : (hi : ℕ) → ℕ
  old_pages hi = (hi - user_text_base + page_size - 1) / page_size

  pub without_image-Cleared :
      (hi : ℕ) (s : Machine T)
      → Owned M s
      → Cleared s user_text_base (old_pages hi) (without_image M hi s)
  without_image-Cleared hi s o =
      let z =
        unmap_pages-Cleared (old_pages hi) s.pages s.allocator s.ram user_text_base
          (record { valid = o.valid; distinct = o.distinct; held = o.held }) (omega arith) in
      record {
        owned = record { valid = z.owned.valid; distinct = z.owned.distinct; held = z.owned.held };
        reads = z.reads;
      }
