-- ===== src/Brk/Growing.antt =====
-- Mapping pages keeps those that are mapped, and maps every page asked for or reports failure.
use rockos.Prelude.{
  ℕ, zero, suc, ◌+◌, ◌-◌, ◌*◌, ◌/◌, ◌≤◌, ◌<◌, ◌≡◌, ◌≢◌, ◌⊎◌, ◌∙◌, refl, sym, ap, subst, Bool, true,
  false, none, some, arith, Bool-cases, Option-cases, inl, inr,
}
use rockos.Memory.{BitmapFrameAllocator, allocate_frame_inner, page_size}
use rockos.Brk.{
  Mapper, is_some, map_page, map_pages, map_brk_grow, containing_address, pages_between,
}

module _ {T : Type 0} (M : Mapper T) where
  -- The page has a translation.
  abbrev pub IsMapped : T → ℕ → Type 0
  IsMapped t page = is_some (M.translate t page) ≡ true

  map_page-allocated :
      (page flags : ℕ) (t : T) (fa : BitmapFrameAllocator) (frame : ℕ)
      → is_some (M.translate t page) ≡ false
      → (allocate_frame_inner fa).0 ≡ some frame
      → map_page M page flags (t, fa) ≡ M.map_to t page frame flags (allocate_frame_inner fa).1
  unfolding map_page
  map_page-allocated page flags t fa frame unmapped found = rw (unmapped, found) refl

  map_page-no_frame :
      (page flags : ℕ) (t : T) (fa : BitmapFrameAllocator)
      → is_some (M.translate t page) ≡ false
      → (allocate_frame_inner fa).0 ≡ none
      → map_page M page flags (t, fa) ≡ (false, (t, (allocate_frame_inner fa).1))
  unfolding map_page
  map_page-no_frame page flags t fa unmapped empty = rw (unmapped, empty) refl

  map_page-present :
      (page flags : ℕ) (t : T) (fa : BitmapFrameAllocator)
      → IsMapped t page
      → map_page M page flags (t, fa) ≡ (true, (t, fa))
  unfolding map_page
  map_page-present page flags t fa there = rw there refl

  -- What one turn, or the loop, does to the pages: none is lost, and with `true` the pages in `want`
  -- are mapped.
  pub record Grown (t : T) (want : ℕ → Type 0) (out : Bool × (T × BitmapFrameAllocator))
      : Type 0 where
    pub keeps : (other : ℕ) → IsMapped t other → IsMapped out.1.0 other
    pub maps : out.0 ≡ true → (other : ℕ) → want other → IsMapped out.1.0 other

  ne_page :
      (t : T) (page other : ℕ)
      → is_some (M.translate t page) ≡ false
      → IsMapped t other
      → other ≢ page
  ne_page t page other unmapped there e =
      let clash : true ≡ false = sym there ∙ (ap (λ k. is_some (M.translate t k)) e ∙ unmapped) in
      cc

  map_page-Grown :
      (page flags : ℕ) (t : T) (fa : BitmapFrameAllocator)
      → Grown t (λ other. other ≡ page) (map_page M page flags (t, fa))
  map_page-Grown page flags t fa = elim (Bool-cases (is_some (M.translate t page))) [
    | inl there ↦
        subst (Grown t (λ other. other ≡ page)) (sym (map_page-present page flags t fa there))
          (record {
            keeps = λ other h. h;
            maps = λ ok other e. ap (λ k. is_some (M.translate t k)) e ∙ there;
          })
    | inr unmapped ↦ elim (Option-cases (allocate_frame_inner fa).0) [
      | inl empty ↦
          subst (Grown t (λ other. other ≡ page))
            (sym (map_page-no_frame page flags t fa unmapped empty))
            (record { keeps = λ other h. h; maps = λ ok other e. absurd (cc) })
      | inr (frame, found) ↦
          let fa' = (allocate_frame_inner fa).1 in
          subst (Grown t (λ other. other ≡ page))
            (sym (map_page-allocated page flags t fa frame unmapped found))
            (record {
              keeps = λ other h.
                  ap is_some
                    (M.map_to_other t page frame flags fa' other (ne_page t page other unmapped h))
                  ∙ h;
              maps = λ ok other e.
                  ap (λ k. is_some (M.translate (M.map_to t page frame flags fa').1.0 k)) e
                  ∙ ap is_some (M.map_to_ok t page frame flags fa' ok);
            })
    ]
  ]

  -- The pages that the loop runs through.
  abbrev pub Among : (n page other : ℕ) → Type 0
  Among n page other = (i : ℕ) × (i < n) × (other ≡ page + i * page_size)

  map_pages-goes_on :
      (n page flags : ℕ) (s : T × BitmapFrameAllocator)
      → (map_page M page flags s).0 ≡ true
      → map_pages M (suc n) page flags s
        ≡ map_pages M n (page + page_size) flags (map_page M page flags s).1
  unfolding map_pages
  map_pages-goes_on n page flags s ok = rw (ok, map_pages) refl

  map_pages-stops :
      (n page flags : ℕ) (s : T × BitmapFrameAllocator)
      → (map_page M page flags s).0 ≡ false
      → map_pages M (suc n) page flags s ≡ (false, (map_page M page flags s).1)
  unfolding map_pages
  map_pages-stops n page flags s failed = rw (failed, map_pages) refl

  Among-suc :
      (n page other : ℕ)
      → Among (suc n) page other
      → (other ≡ page) ⊎ Among n (page + page_size) other
  Among-suc n page other (zero, small, e) = inl (omega arith)
  Among-suc n page other (suc i, small, e) = inr (i, omega arith, omega arith)

  pub map_pages-Grown :
      (n page flags : ℕ) (s : T × BitmapFrameAllocator)
      → Grown s.0 (Among n page) (map_pages M n page flags s)
  unfolding map_pages
  map_pages-Grown zero page flags s = record {
    keeps = λ other h. h;
    maps = λ ok other (i, small, e). absurd (omega arith);
  }
  map_pages-Grown (suc n) page flags s =
      let turn = map_page-Grown page flags s.0 s.1 in
      let s' = (map_page M page flags s).1 in
      elim (Bool-cases (map_page M page flags s).0) [
        | inr failed ↦
            subst (Grown s.0 (Among (suc n) page)) (sym (map_pages-stops n page flags s failed))
              (record { keeps = turn.keeps; maps = λ ok other w. absurd cc })
        | inl ok ↦
            let rest = map_pages-Grown n (page + page_size) flags s' in
            subst (Grown s.0 (Among (suc n) page)) (sym (map_pages-goes_on n page flags s ok))
              (record {
                keeps = λ other h. rest.keeps other (turn.keeps other h);
                maps = λ all other w. elim (Among-suc n page other w) [
                  | inl e ↦ rest.keeps other (turn.maps ok other e)
                  | inr later ↦ rest.maps all other later
                ];
              })
      ]

  -- The page of an address between the old and the new end is one of those.
  between-Among :
      (old_end new_end addr : ℕ)
      → old_end ≤ addr
      → addr < new_end
      → let first = containing_address old_end in
        Among
          (pages_between first (containing_address (new_end - 1)))
          first
          (containing_address addr)
  between-Among old_end new_end addr lo hi =
      (addr / page_size - old_end / page_size, omega arith, omega arith)

  -- Growing keeps every page that is mapped; if it succeeds, every address between the old and the
  -- new end lies in a mapped page.
  pub map_brk_grow-Grown :
      (old_end new_end flags : ℕ) (s : T × BitmapFrameAllocator)
      → let out = map_brk_grow M old_end new_end flags s in
        ((other : ℕ) → IsMapped s.0 other → IsMapped out.1.0 other)
        × (out.0 ≡ true
            → (addr : ℕ) → old_end ≤ addr
            → addr < new_end
            → IsMapped out.1.0 (containing_address addr))
  unfolding map_brk_grow
  map_brk_grow-Grown old_end new_end flags s =
      let first = containing_address old_end in
      let g =
        map_pages-Grown (pages_between first (containing_address (new_end - 1))) first flags s in
      (
        g.keeps,
        λ ok addr lo hi.
            g.maps ok (containing_address addr) (between-Among old_end new_end addr lo hi),
      )
