-- ===== src/Elf/Loader/Frames.antt =====
-- Pages with frames of their own, and what a new page of zeros adds to user memory: the ground of the
-- page loop of `load_elf_mapped` in src/elf.rs.
use rockos.Prelude.{
  ℕ, suc, ◌+◌, ◌*◌, ◌/◌, ◌%◌, ◌≡◌, ◌≢◌, ◌⊎◌, ◌∙◌, refl, sym, ap, true, false, Option, none, some,
  arith, ltb, leb, ◌==◌, ◌&&◌, if◌then◌else◌, Bool-cases, Option-cases, inl, inr,
}
use rockos.Memory.{BitmapFrameAllocator, is_free, page_size}
use rockos.Memory.Laws.{IsValid}
use rockos.Brk.{Mapper, containing_address}
use rockos.Paging.{Physical, Machine, zero_frame, translate_addr, read_user}
use rockos.Paging.Access.{Distinct}

-- User memory in which `n` pages from `page` on are zero.
unfoldable pub zeroed_at : (page n : ℕ) → (read : ℕ → Option ℕ) → ℕ → Option ℕ
zeroed_at page n read va = if leb page va && ltb va (page + n * page_size) then some 0 else read va

pub zeroed_at-suc :
    (page n va : ℕ) (read read' : ℕ → Option ℕ)
    → read' va ≡ zeroed_at page 1 read va
    → zeroed_at (page + page_size) n read' va ≡ zeroed_at page (suc n) read va
unfolding zeroed_at
zeroed_at-suc page n va read read' e = ground (arith, e)

-- `map_to` takes frames for page tables from the allocator, and gives none back.
pub record TakesFrames {T : Type 0} (M : Mapper T) : Type 0 where
  pub keeps_valid :
      (t : T) (page frame flags : ℕ) (fa : BitmapFrameAllocator)
      → IsValid fa
      → IsValid (M.map_to t page frame flags fa).1.1
  pub keeps_used :
      (t : T) (page frame flags : ℕ) (fa : BitmapFrameAllocator) (j : ℕ)
      → is_free fa.bitmap j ≡ false
      → is_free (M.map_to t page frame flags fa).1.1.bitmap j ≡ false

module _ {T : Type 0} (M : Mapper T) where
  -- Pages have frames of their own, none of which the allocator holds as free.
  pub record Owned (s : Machine T) : Type 0 where
    pub valid : IsValid s.allocator
    pub distinct : Distinct M s.pages
    pub held :
        (page frame : ℕ)
        → M.translate s.pages page ≡ some frame
        → is_free s.allocator.bitmap (frame / page_size) ≡ false

  -- A page table with a new page on a frame that no other page has.
  pub record Extends (t : T) (page frame : ℕ) (t' : T) : Type 0 where
    pub there : M.translate t' page ≡ some frame
    pub others : (other : ℕ) → other ≢ page → M.translate t' other ≡ M.translate t other
    pub fresh : (other : ℕ) → M.translate t other ≢ some frame
    pub aligned : frame % page_size ≡ 0

  pub translate-Extends :
      (t t' : T) (page frame other f : ℕ)
      → Extends t page frame t'
      → M.translate t' other ≡ some f
      → ((other ≡ page) × (f ≡ frame)) ⊎ ((other ≢ page) × (M.translate t other ≡ some f))
  translate-Extends t t' page frame other f x e = elim (Bool-cases (other == page)) [
    | inl same ↦
        let at : other ≡ page = ground arith in
        let both : some f ≡ some frame = sym e ∙ ap (M.translate t') at ∙ x.there in
        inl (at, ground arith)
    | inr differ ↦ let off : other ≢ page = ground arith in inr (off, sym (x.others other off) ∙ e)
  ]

  pub Distinct-Extends :
      (t t' : T) (page frame : ℕ) → Distinct M t → Extends t page frame t' → Distinct M t'
  Distinct-Extends t t' page frame d x = record {
    aligned = λ p f e. elim (translate-Extends t t' page frame p f x e) [
      | inl (at, same) ↦ (let a = x.aligned in ground arith)
      | inr (off, old) ↦ d.aligned p f old
    ];
    unshared = λ p q f e e'. elim (translate-Extends t t' page frame p f x e) [
      | inl (at, same) ↦ elim (translate-Extends t t' page frame q f x e') [
        | inl (at', same') ↦ at ∙ sym at'
        | inr (off, old) ↦ absurd (x.fresh q (old ∙ ap some same))
      ]
      | inr (off, old) ↦ elim (translate-Extends t t' page frame q f x e') [
        | inl (at', same') ↦ absurd (x.fresh p (old ∙ ap some same'))
        | inr (off', old') ↦ d.unshared p q f old old'
      ]
    ];
  }

  pub read_user-frame :
      (t : T) (ram : Physical) (va frame : ℕ)
      → M.translate t (containing_address va) ≡ some frame
      → read_user M t ram va ≡ some (ram (frame + va % page_size))
  unfolding read_user translate_addr
  read_user-frame t ram va frame e = rw (read_user, translate_addr, e) refl

  pub read_user-absent :
      (t : T) (ram : Physical) (va : ℕ)
      → M.translate t (containing_address va) ≡ none
      → read_user M t ram va ≡ none
  unfolding read_user translate_addr
  read_user-absent t ram va e = rw (read_user, translate_addr, e) refl

  pub read_user-same :
      (t t' : T) (ram : Physical) (va : ℕ)
      → M.translate t' (containing_address va) ≡ M.translate t (containing_address va)
      → read_user M t' ram va ≡ read_user M t ram va
  read_user-same t t' ram va same = elim (Option-cases (M.translate t (containing_address va))) [
    | inl e ↦ read_user-absent t' ram va (same ∙ e) ∙ sym (read_user-absent t ram va e)
    | inr (f, e) ↦ read_user-frame t' ram va f (same ∙ e) ∙ sym (read_user-frame t ram va f e)
  ]

  -- What a program sees after a page of zeros was added.
  pub read_user-Extends :
      (t t' : T) (ram : Physical) (page frame va : ℕ)
      → Distinct M t
      → Extends t page frame t'
      → page % page_size ≡ 0
      → read_user M t' (zero_frame ram frame) va ≡ zeroed_at page 1 (read_user M t ram) va
  unfolding zero_frame zeroed_at
  read_user-Extends t t' ram page frame va d x start =
      elim (Bool-cases (containing_address va == page)) [
        | inl here ↦
            let at : containing_address va ≡ page = ground arith in
            let r =
              read_user-frame t' (zero_frame ram frame) va frame
                (ap (M.translate t') at ∙ x.there) in
            let inside : (leb page va && ltb va (page + 1 * page_size)) ≡ true = ground arith in
            ground (arith, r, inside)
        | inr away ↦
            let off : containing_address va ≢ page = ground arith in
            let outside : (leb page va && ltb va (page + 1 * page_size)) ≡ false = ground arith in
            let same = x.others (containing_address va) off in
            elim (Option-cases (M.translate t (containing_address va))) [
              | inl e ↦ rw outside (
                  read_user-absent t' (zero_frame ram frame) va (same ∙ e)
                  ∙ sym (read_user-absent t ram va e))
              | inr (f, e) ↦
                  let other : f ≢ frame = λ p. x.fresh (containing_address va) (e ∙ ap some p) in
                  let fa = d.aligned (containing_address va) f e in
                  let ga = x.aligned in
                  let r = read_user-frame t' (zero_frame ram frame) va f (same ∙ e) in
                  let r' = read_user-frame t ram va f e in
                  let kept : zero_frame ram frame (f + va % page_size) ≡ ram (f + va % page_size) =
                    ground arith in
                  rw outside (r ∙ ap some kept ∙ sym r')
            ]
      ]
