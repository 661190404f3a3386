-- ===== src/Elf/Loader/Steps.antt =====
-- The shape of the calls of Loader on the ways that succeed.
use rockos.Prelude.{
  ℕ, suc, Option, ◌+◌, ◌^◌, ◌≡◌, ◌∙◌, refl, sym, ap, true, false, not, ◌&&◌, List, arith, length,
  ltb, leb, ◌==◌, Bool-cases, inl, inr,
}
use rockos.Brk.{Mapper}
use rockos.Paging.{Machine}
use rockos.Elf.{unsupported_align, phdr_oob, Result, ok, err, panicked, ◌>>◌}
use rockos.Elf.Headers.{ProgramHeader, header_at, Loaded, Plan, plan_segment}
use rockos.Elf.Loader.{place_segment, load_segment, load_segments}
use rockos.Elf.Loader.Segments.{is_loadable}

pub ok-injective : {A : Type 0} (a b : A) → ◌≡◌ {A = Result A} (ok a) (ok b) → a ≡ b
ok-injective a b e = ap (λ r. elim r [ ok x ↦ x | err y ↦ a | panicked ↦ a ]) e

module _ {T : Type 0} (M : Mapper T) (virt_new : ℕ → Option ℕ) where
  abbrev pub continue_load :
      (image : List ℕ) → ProgramHeader → Machine T → Result Plan → Result Loaded × Machine T
  continue_load image h s plan = elim plan [
    | err e ↦ (err e, s)
    | panicked ↦ (panicked, s)
    | ok p ↦ let (r, s') = place_segment M virt_new image h p s in (r >> ok p.loaded, s')
  ]

  pub load_segment-skip :
      (image : List ℕ) (e_phoff bias : ℕ) (h : ProgramHeader) (l : Loaded) (s : Machine T)
      → is_loadable h ≡ false
      → (load_segment M virt_new image e_phoff bias h l s).1 ≡ s
  unfolding load_segment
  load_segment-skip image e_phoff bias h l s out = elim (Bool-cases (h.p_type == 1)) [
    | inr other ↦ rw (load_segment, other) refl
    | inl load ↦
        let empty : (h.p_memsz == 0) ≡ true = ground arith in
        elim (Bool-cases (not (h.p_align == 0) && not (h.p_align == 4096))) [
          | inl bad ↦ rw (load_segment, load) (rw bad refl)
          | inr good ↦ rw (load_segment, load) (rw good (rw empty refl))
        ]
  ]

  pub load_segment-place :
      (image : List ℕ) (e_phoff bias : ℕ) (h : ProgramHeader) (l l' : Loaded) (s : Machine T)
      → is_loadable h ≡ true
      → (load_segment M virt_new image e_phoff bias h l s).0 ≡ ok l'
      → load_segment M virt_new image e_phoff bias h l s
        ≡ continue_load image h s (plan_segment virt_new e_phoff bias h l)
  unfolding load_segment
  load_segment-place image e_phoff bias h l l' s loadable okay =
      let load : (h.p_type == 1) ≡ true = ground arith in
      let memory : (h.p_memsz == 0) ≡ false = ground arith in
      elim (Bool-cases (not (h.p_align == 0) && not (h.p_align == 4096))) [
        | inl bad ↦
            let stopped : load_segment M virt_new image e_phoff bias h l s
                ≡ (err unsupported_align, s) =
              rw (load_segment, load) (rw bad refl) in
            let r = ap (λ c. c.0) stopped in cc
        | inr good ↦ rw (load_segment, load) (rw good (rw memory refl))
      ]

  abbrev pub continue_segments :
      (image : List ℕ) (e_phoff bias n off : ℕ)
      → Result Loaded × Machine T
      → Result Loaded × Machine T
  continue_segments image e_phoff bias n off r = elim r.0 [
    | ok l ↦ load_segments M virt_new image e_phoff bias n (off + 56) l r.1
    | err e ↦ (err e, r.1)
    | panicked ↦ (panicked, r.1)
  ]

  pub load_segments-step :
      (image : List ℕ) (e_phoff bias n off : ℕ) (l l' : Loaded) (s : Machine T)
      → (load_segments M virt_new image e_phoff bias (suc n) off l s).0 ≡ ok l'
      → load_segments M virt_new image e_phoff bias (suc n) off l s
        ≡ continue_segments image e_phoff bias n off
            (load_segment M virt_new image e_phoff bias (header_at image off) l s)
  unfolding load_segments
  load_segments-step image e_phoff bias n off l l' s okay =
      elim (Bool-cases (leb (2 ^ 64) (off + 56))) [
        | inl over ↦
            let stopped : load_segments M virt_new image e_phoff bias (suc n) off l s
                ≡ (panicked, s) =
              rw (load_segments, over) refl in
            let r = ap (λ c. c.0) stopped in cc
        | inr fits ↦ elim (Bool-cases (ltb (length image) (off + 56))) [
          | inl over ↦
              let stopped : load_segments M virt_new image e_phoff bias (suc n) off l s
                  ≡ (err phdr_oob, s) =
                rw (load_segments, fits) (rw over refl) in
              let r = ap (λ c. c.0) stopped in cc
          | inr within ↦ rw (load_segments, fits) (rw within refl)
        ]
      ]

  -- A program header that asks for nothing leaves what was noted before.
  pub load_segment-kept :
      (image : List ℕ) (e_phoff bias : ℕ) (h : ProgramHeader) (l l' : Loaded) (s : Machine T)
      → is_loadable h ≡ false
      → (load_segment M virt_new image e_phoff bias h l s).0 ≡ ok l'
      → l ≡ l'
  unfolding load_segment
  load_segment-kept image e_phoff bias h l l' s out okay = elim (Bool-cases (h.p_type == 1)) [
    | inr other ↦
        let step : load_segment M virt_new image e_phoff bias h l s ≡ (ok l, s) =
          rw (load_segment, other) refl in
        ok-injective l l' (sym (ap (λ c. c.0) step) ∙ okay)
    | inl load ↦
        let empty : (h.p_memsz == 0) ≡ true = ground arith in
        elim (Bool-cases (not (h.p_align == 0) && not (h.p_align == 4096))) [
          | inl bad ↦
              let step : load_segment M virt_new image e_phoff bias h l s
                  ≡ (err unsupported_align, s) =
                rw (load_segment, load) (rw bad refl) in
              let r = sym (ap (λ c. c.0) step) ∙ okay in cc
          | inr good ↦
              let step : load_segment M virt_new image e_phoff bias h l s ≡ (ok l, s) =
                rw (load_segment, load) (rw good (rw empty refl)) in
              ok-injective l l' (sym (ap (λ c. c.0) step) ∙ okay)
        ]
  ]
