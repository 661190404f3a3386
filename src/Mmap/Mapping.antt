-- ===== src/Mmap/Mapping.antt =====
-- Mapping anonymous pages keeps those that are mapped, and maps every page asked for or reports
-- failure.
use rockos.Prelude.{
  ℕ, zero, suc, ◌+◌, ◌*◌, ◌%◌, ◌≤◌, ◌<◌, ◌≡◌, ◌⊎◌, ◌∙◌, refl, sym, ap, subst, true, false, arith,
  ltb, ltb→lt, ◌==◌, Bool-cases, Option-cases, inl, inr,
}
use rockos.Memory.{BitmapFrameAllocator, allocate_frame_inner, page_size}
use rockos.Brk.{Mapper, is_some, containing_address}
use rockos.Brk.Growing.{IsMapped}
use rockos.Mmap.{map_anon_page, map_user_anon_pages}

module _ {T : Type 0} (M : Mapper T) where
  anon_page_ok :
      (start flags : ℕ) (s : T × BitmapFrameAllocator)
      → (map_anon_page M start flags s).0 ≡ true
      → (frame : ℕ) × (map_anon_page M start flags s
          ≡ M.map_to s.0 (containing_address start) frame flags (allocate_frame_inner s.1).1)
  unfolding map_anon_page
  anon_page_ok start flags s ok = elim (Option-cases (allocate_frame_inner s.1).0) [
    | inl empty ↦
        let refused : (map_anon_page M start flags s).0 ≡ false = rw (empty, map_anon_page) refl in
        absurd cc
    | inr (frame, found) ↦ (frame, rw (found, map_anon_page) refl)
  ]

  -- Every page that was mapped still is, and so are the pages in `want`.
  pub record Mapped (t : T) (want : ℕ → Type 0) (t' : T) : Type 0 where
    pub keeps : (other : ℕ) → IsMapped M t other → IsMapped M t' other
    pub maps : (other : ℕ) → want other → IsMapped M t' other

  map_to-Mapped :
      (page frame flags : ℕ) (t : T) (fa : BitmapFrameAllocator)
      → (M.map_to t page frame flags fa).0 ≡ true
      → Mapped t (λ other. other ≡ page) (M.map_to t page frame flags fa).1.0
  map_to-Mapped page frame flags t fa ok =
      let t' = (M.map_to t page frame flags fa).1.0 in
      let there : IsMapped M t' page = ap is_some (M.map_to_ok t page frame flags fa ok) in
      let at_page : (other : ℕ) → other ≡ page → IsMapped M t' other =
        λ other e. ap (λ k. is_some (M.translate t' k)) e ∙ there in
      record {
        keeps = λ other h. elim (Bool-cases (other == page)) [
          | inl same ↦ at_page other (ground arith)
          | inr apart ↦ ap is_some (M.map_to_other t page frame flags fa other (ground arith)) ∙ h
        ];
        maps = at_page;
      }

  map_anon_page-Mapped :
      (start flags : ℕ) (s : T × BitmapFrameAllocator)
      → (map_anon_page M start flags s).0 ≡ true
      → Mapped s.0 (λ other. other ≡ containing_address start) (map_anon_page M start flags s).1.0
  map_anon_page-Mapped start flags s ok =
      let (frame, e) = anon_page_ok start flags s ok in
      subst (λ out. Mapped s.0 (λ other. other ≡ containing_address start) out.1.0) (sym e)
        (map_to-Mapped (containing_address start) frame flags s.0 (allocate_frame_inner s.1).1
          (sym (ap (λ out. out.0) e) ∙ ok))

  map_pages-goes_on :
      (n start flags : ℕ) (s : T × BitmapFrameAllocator)
      → (map_anon_page M start flags s).0 ≡ true
      → map_user_anon_pages M (suc n) start flags s
        ≡ map_user_anon_pages M n (start + page_size) flags (map_anon_page M start flags s).1
  unfolding map_user_anon_pages
  map_pages-goes_on n start flags s ok = rw (ok, map_user_anon_pages) refl

  map_pages-first_ok :
      (n start flags : ℕ) (s : T × BitmapFrameAllocator)
      → (map_user_anon_pages M (suc n) start flags s).0 ≡ true
      → (map_anon_page M start flags s).0 ≡ true
  unfolding map_user_anon_pages
  map_pages-first_ok n start flags s ok = elim (Bool-cases (map_anon_page M start flags s).0) [
    | inl fine ↦ fine
    | inr failed ↦
        let refused : (map_user_anon_pages M (suc n) start flags s).0 ≡ false =
          rw (failed, map_user_anon_pages) refl in
        absurd cc
  ]

  -- The pages that hold the addresses from `start` on, `n` pages of them.
  abbrev pub Holding : (n start other : ℕ) → Type 0
  Holding n start other =
      (addr : ℕ) × (start ≤ addr)
      × (addr < start + n * page_size)
      × (other ≡ containing_address addr)

  Holding-suc :
      (n start other : ℕ)
      → start % page_size ≡ 0
      → Holding (suc n) start other
      → (other ≡ containing_address start) ⊎ Holding n (start + page_size) other
  Holding-suc n start other aligned (addr, lo, hi, e) =
      elim (Bool-cases (ltb addr (start + page_size))) [
        | inl first ↦ inl (omega (arith, ltb→lt addr (start + page_size) first))
        | inr later ↦ inr (addr, ground arith, omega arith, e)
      ]

  -- If it succeeds, mapping leaves every page mapped that was, and maps the page of every address in
  -- the range.
  pub map_user_anon_pages-Mapped :
      (n start flags : ℕ) (s : T × BitmapFrameAllocator)
      → start % page_size ≡ 0
      → (map_user_anon_pages M n start flags s).0 ≡ true
      → Mapped s.0 (Holding n start) (map_user_anon_pages M n start flags s).1.0
  unfolding map_user_anon_pages
  map_user_anon_pages-Mapped zero start flags s aligned ok = record {
    keeps = λ other h. h;
    maps = λ other (addr, lo, hi, e). absurd (omega arith);
  }
  map_user_anon_pages-Mapped (suc n) start flags s aligned ok =
      let first_ok = map_pages-first_ok n start flags s ok in
      let turn = map_anon_page-Mapped start flags s first_ok in
      let s' = (map_anon_page M start flags s).1 in
      let e = map_pages-goes_on n start flags s first_ok in
      let rest =
        map_user_anon_pages-Mapped n (start + page_size) flags s' (omega arith)
          (sym (ap (λ out. out.0) e) ∙ ok) in
      subst (λ out. Mapped s.0 (Holding (suc n) start) out.1.0) (sym e)
        (record {
          keeps = λ other h. rest.keeps other (turn.keeps other h);
          maps = λ other w. elim (Holding-suc n start other aligned w) [
            | inl at_start ↦ rest.keeps other (turn.maps other at_start)
            | inr later ↦ rest.maps other later
          ];
        })
