-- ===== src/Elf/Loader/Reference.antt =====
-- `load_elf_mapped` of src/elf.rs against a reference loader that works on user memory as a function
-- from addresses to bytes, with no pages, frames or page table.
use rockos.Prelude.{
  ℕ, zero, suc, ◌+◌, ◌^◌, ◌<◌, ◌≡◌, ◌≢◌, ◌∙◌, refl, sym, ap, subst, true, Option, List, arith,
  if◌then◌else◌, Bool-cases, inl, inr,
}
use rockos.Brk.{Mapper}
use rockos.Paging.{Machine, read_user}
use rockos.Elf.{Result, ok, err, panicked, ◌>>◌, >>=-ok}
use rockos.Elf.Headers.{
  ProgramHeader, header_at, Loaded, Plan, plan_segment, plan_pages, note_headers,
}
use rockos.Elf.Loader.{place_segment, load_segment, load_segments}
use rockos.Elf.Loader.Steps.{
  ok-injective, continue_load, load_segment-skip, load_segment-place, continue_segments,
  load_segments-step,
}
use rockos.Elf.Loader.Frames.{TakesFrames, Owned}
use rockos.Elf.Loader.Segments.{
  KeepsLow, is_loadable, segment_start, segment_at, planned, plan_pages-planned, Loads,
  place_segment-Loads,
}

-- The segment of one program header, if it asks for memory.
abbrev pub header_reference :
    (image : List ℕ) (bias : ℕ) → ProgramHeader → (read : ℕ → Option ℕ) → ℕ → Option ℕ
header_reference image bias h read va =
    if is_loadable h then segment_at image bias h read va else read va

-- The segments of `n` program headers from offset `off` on, the later over the earlier.
unfoldable pub load_reference :
    (image : List ℕ) (bias n off : ℕ) → (read : ℕ → Option ℕ) → ℕ → Option ℕ
load_reference image bias zero off read = read
load_reference image bias (suc n) off read =
    load_reference image bias n (off + 56) (header_reference image bias (header_at image off) read)

-- A segment lies in the low half of the address space, in memory and by its bytes in the file.
abbrev pub IsLow : (bias : ℕ) → ProgramHeader → Type 0
IsLow bias h =
    (segment_start h bias + h.p_memsz < 2 ^ 47) × (segment_start h bias + h.p_filesz < 2 ^ 47)

abbrev pub AllLow : (image : List ℕ) (bias n off : ℕ) → Type 0
AllLow image bias zero off = Unit {0}
AllLow image bias (suc n) off =
    (is_loadable (header_at image off) ≡ true → IsLow bias (header_at image off))
    × AllLow image bias n (off + 56)

module _ {T : Type 0} (M : Mapper T) (virt_new : ℕ → Option ℕ) (low : KeepsLow virt_new)
    (frames : TakesFrames M) where
  abbrev Places : (image : List ℕ) (bias : ℕ) → ProgramHeader → (s s' : Machine T) → Type 0
  Places image bias h s s' =
      Loads M virt_new low (segment_at image bias h (read_user M s.pages s.ram)) s'

  place_planned :
      (image : List ℕ) (bias : ℕ) (h : ProgramHeader) (l l' : Loaded) (s : Machine T) (p : Plan)
      → Owned M s
      → h.p_memsz ≢ 0
      → IsLow bias h
      → planned M virt_new low h (segment_start h bias) l ≡ p
      → ((place_segment M virt_new image h p s).0 >> ok p.loaded) ≡ ok l'
      → Places image bias h s (place_segment M virt_new image h p s).1
  place_planned image bias h l l' s p o ne fits e okay =
      let (u, done, rest) =
        >>=-ok (place_segment M virt_new image h p s).0 (λ u. ok p.loaded) okay in
      subst (λ q. Places image bias h s (place_segment M virt_new image h q s).1) e
        (place_segment-Loads M virt_new low frames image bias h l s o ne fits.1
          (ap (λ q. (place_segment M virt_new image h q s).0) e ∙ done))

  continue_load-Places :
      (image : List ℕ) (e_phoff bias : ℕ) (h : ProgramHeader) (l l' : Loaded) (s : Machine T)
      (plan : Result Plan)
      → Owned M s
      → h.p_memsz ≢ 0
      → IsLow bias h
      → plan_segment virt_new e_phoff bias h l ≡ plan
      → (continue_load M virt_new image h s plan).0 ≡ ok l'
      → Places image bias h s (continue_load M virt_new image h s plan).1
  unfolding plan_segment
  continue_load-Places image e_phoff bias h l l' s (ok p) o ne fits e okay =
      let (l1, noted, paged) =
        >>=-ok (note_headers h e_phoff (segment_start h bias) l)
          (plan_pages virt_new h (segment_start h bias)) e in
      place_planned image bias h l1 l' s p o ne fits
        (ok-injective (planned M virt_new low h (segment_start h bias) l1) p
          (sym (plan_pages-planned M virt_new low h (segment_start h bias) l1 fits.0) ∙ paged))
        okay
  continue_load-Places image e_phoff bias h l l' s (err x) o ne fits e okay = cc
  continue_load-Places image e_phoff bias h l l' s panicked o ne fits e okay = cc

  -- One turn of the loop over the program headers.
  load_segment-Loads :
      (image : List ℕ) (e_phoff bias : ℕ) (h : ProgramHeader) (l l' : Loaded) (s : Machine T)
      → Owned M s
      → (is_loadable h ≡ true → IsLow bias h)
      → (load_segment M virt_new image e_phoff bias h l s).0 ≡ ok l'
      → Loads M virt_new low
          (header_reference image bias h (read_user M s.pages s.ram))
          (load_segment M virt_new image e_phoff bias h l s).1
  load_segment-Loads image e_phoff bias h l l' s o fits okay =
      let read = read_user M s.pages s.ram in
      elim (Bool-cases (is_loadable h)) [
        | inr out ↦ rw (load_segment-skip M virt_new image e_phoff bias h l s out) (record {
          owned = o;
          reads = λ va. ap (λ b. if b then segment_at image bias h read va else read va) (sym out);
        })
        | inl loadable ↦
            let step = load_segment-place M virt_new image e_phoff bias h l l' s loadable okay in
            let plan = plan_segment virt_new e_phoff bias h l in
            let placed =
              continue_load-Places image e_phoff bias h l l' s plan o (ground arith) (fits loadable)
                refl (sym (ap (λ c. c.0) step) ∙ okay) in
            rw step (record {
              owned = placed.owned;
              reads = λ va.
                  placed.reads va
                  ∙ ap (λ b. if b then segment_at image bias h read va else read va) (sym loadable);
            })
      ]

  continue_segments-Loads :
      (image : List ℕ) (e_phoff bias n off : ℕ) (l' : Loaded) (read : ℕ → Option ℕ)
      (r : Result Loaded × Machine T)
      → ((l1 : Loaded) → r.0 ≡ ok l1 → Loads M virt_new low read r.1)
      → ((l1 : Loaded) (s1 : Machine T)
          → Owned M s1
          → (load_segments M virt_new image e_phoff bias n (off + 56) l1 s1).0 ≡ ok l'
          → Loads M virt_new low
              (load_reference image bias n (off + 56) (read_user M s1.pages s1.ram))
              (load_segments M virt_new image e_phoff bias n (off + 56) l1 s1).1)
      → (continue_segments M virt_new image e_phoff bias n off r).0 ≡ ok l'
      → Loads M virt_new low
          (load_reference image bias n (off + 56) read)
          (continue_segments M virt_new image e_phoff bias n off r).1
  continue_segments-Loads image e_phoff bias n off l' read (ok l1, s1) here rest okay =
      let f = here l1 refl in
      subst
        (λ m.
          Loads M virt_new low (load_reference image bias n (off + 56) m)
            (load_segments M virt_new image e_phoff bias n (off + 56) l1 s1).1)
        (λ i. λ va. f.reads va i) (rest l1 s1 f.owned okay)
  continue_segments-Loads image e_phoff bias n off l' read (err e, s1) here rest okay = cc
  continue_segments-Loads image e_phoff bias n off l' read (panicked, s1) here rest okay = cc

  pub load_segments-Loads :
      (image : List ℕ) (e_phoff bias n off : ℕ) (l l' : Loaded) (s : Machine T)
      → Owned M s
      → AllLow image bias n off
      → (load_segments M virt_new image e_phoff bias n off l s).0 ≡ ok l'
      → Loads M virt_new low
          (load_reference image bias n off (read_user M s.pages s.ram))
          (load_segments M virt_new image e_phoff bias n off l s).1
  unfolding load_reference load_segments
  load_segments-Loads image e_phoff bias zero off l l' s o fits okay = record {
    owned = o;
    reads = λ va. refl;
  }
  load_segments-Loads image e_phoff bias (suc n) off l l' s o fits okay =
      let step = load_segments-step M virt_new image e_phoff bias n off l l' s okay in
      rw step (
        continue_segments-Loads image e_phoff bias n off l'
          (header_reference image bias (header_at image off) (read_user M s.pages s.ram))
          (load_segment M virt_new image e_phoff bias (header_at image off) l s)
          (λ l1 e. load_segment-Loads image e_phoff bias (header_at image off) l l1 s o fits.0 e)
          (λ l1 s1 o1 e. load_segments-Loads image e_phoff bias n (off + 56) l1 l' s1 o1 fits.1 e)
          (sym (ap (λ c. c.0) step) ∙ okay))
