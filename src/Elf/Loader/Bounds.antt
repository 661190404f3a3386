-- ===== src/Elf/Loader/Bounds.antt =====
-- What the loader of src/elf.rs records of a program: `image_end`, `rw_min` and the entry.
use Prim.Native.Nat.{bit_and}
use rockos.Prelude.{
  ℕ, zero, suc, ◌+◌, ◌%◌, ◌^◌, ◌≤◌, ◌≡◌, ◌≢◌, ◌∙◌, refl, sym, ap, subst, true, Option, none, some,
  List, arith, Bool-cases, Option-cases, inl, inr,
}
use rockos.Memory.{page_size}
use rockos.Brk.{Mapper}
use rockos.Elf.{no_phdr_in_load, Result, ok, err, panicked, ◌>>=◌, ◌>>◌, >>=-ok, ElfLoadedMeta}
use rockos.Elf.Headers.{
  ProgramHeader, Loaded, Plan, plan_segment, nothing_loaded, finish, header_at, ElfHeader,
  read_header,
}
use rockos.Elf.Loader.{place_segment, load_segment, load_segments, load_elf_mapped}
use rockos.User.{user_text_base}
use rockos.Paging.{Machine}
use rockos.Elf.Loader.Steps.{
  ok-injective, continue_load, load_segment-place, load_segment-kept, continue_segments,
  load_segments-step,
}
use rockos.Elf.Loader.Segments.{is_loadable, segment_start}
use rockos.Elf.Loader.Notes.{Lowers, Noted, plan_segment-Noted}

module _ {T : Type 0} (M : Mapper T) (virt_new : ℕ → Option ℕ) where
  after_place-Noted :
      (e_phoff bias : ℕ) (h : ProgramHeader) (l l' : Loaded) (p : Plan) (r : Result (Unit {0}))
      → plan_segment virt_new e_phoff bias h l ≡ ok p
      → (r >> ok p.loaded) ≡ ok l'
      → Noted bias h l l'
  after_place-Noted e_phoff bias h l l' p (ok u) e okay =
      subst (Noted bias h l) (ap (λ q. elim q [ ok x ↦ x | err y ↦ l' | panicked ↦ l' ]) okay)
        (plan_segment-Noted virt_new e_phoff bias h l p e)
  after_place-Noted e_phoff bias h l l' p (err x) e okay = cc
  after_place-Noted e_phoff bias h l l' p panicked e okay = cc

  load_segment-Noted :
      (image : List ℕ) (e_phoff bias : ℕ) (h : ProgramHeader) (l l' : Loaded) (s : Machine T)
      → (load_segment M virt_new image e_phoff bias h l s).0 ≡ ok l'
      → Noted bias h l l'
  load_segment-Noted image e_phoff bias h l l' s okay = elim (Bool-cases (is_loadable h)) [
    | inr out ↦
        let same : l ≡ l' = load_segment-kept M virt_new image e_phoff bias h l l' s out okay in
        subst (Noted bias h l) same (record {
          grows = omega arith;
          covers = λ loadable. (let r = sym out ∙ loadable in cc);
          lowers = λ loadable set. (let r = sym out ∙ loadable in cc);
          keeps = λ a k. k;
        })
    | inl loadable ↦
        let step = load_segment-place M virt_new image e_phoff bias h l l' s loadable okay in
        go (plan_segment virt_new e_phoff bias h l) refl (sym (ap (λ c. c.0) step) ∙ okay)
  ]
    where
      go :
          (plan : Result Plan)
          → plan_segment virt_new e_phoff bias h l ≡ plan
          → (continue_load M virt_new image h s plan).0 ≡ ok l'
          → Noted bias h l l'
      go (ok p) e done =
          after_place-Noted e_phoff bias h l l' p (place_segment M virt_new image h p s).0 e done
      go (err x) e done = cc
      go panicked e done = cc

  -- Every program header that asks for memory lies below the end, and every writable one above the
  -- lowest writable address.
  abbrev pub AllNoted : (image : List ℕ) (bias n off : ℕ) → Loaded → Type 0
  AllNoted image bias zero off l = Unit {0}
  AllNoted image bias (suc n) off l =
      (is_loadable (header_at image off) ≡ true
        → (segment_start (header_at image off) bias + (header_at image off).p_memsz ≤ l.image_end)
          × (bit_and (header_at image off).p_flags 2 ≢ 0
              → Lowers l.rw_min (segment_start (header_at image off) bias)))
      × AllNoted image bias n (off + 56) l

  -- What the rest of the headers leaves of what was noted.
  record Kept (l l' : Loaded) : Type 0 where
    grows : l.image_end ≤ l'.image_end
    keeps : (a : ℕ) → Lowers l.rw_min a → Lowers l'.rw_min a

  load_segments-Noted :
      (image : List ℕ) (e_phoff bias n off : ℕ) (l l' : Loaded) (s : Machine T)
      → (load_segments M virt_new image e_phoff bias n off l s).0 ≡ ok l'
      → Kept l l' × AllNoted image bias n off l'
  unfolding load_segments
  load_segments-Noted image e_phoff bias zero off l l' s okay =
      let same = ok-injective l l' okay in
      (subst (Kept l) same (record { grows = omega arith; keeps = λ a k. k }), tt)
  load_segments-Noted image e_phoff bias (suc n) off l l' s okay =
      let h = header_at image off in
      let step = load_segments-step M virt_new image e_phoff bias n off l l' s okay in
      go (load_segment M virt_new image e_phoff bias h l s)
        (λ l1 e. load_segment-Noted image e_phoff bias h l l1 s e)
        (λ l1 s1 e. load_segments-Noted image e_phoff bias n (off + 56) l1 l' s1 e)
        (sym (ap (λ c. c.0) step) ∙ okay)
    where
      go :
          (r : Result Loaded × Machine T)
          → ((l1 : Loaded) → r.0 ≡ ok l1 → Noted bias (header_at image off) l l1)
          → ((l1 : Loaded) (s1 : Machine T)
              → (load_segments M virt_new image e_phoff bias n (off + 56) l1 s1).0 ≡ ok l'
              → Kept l1 l' × AllNoted image bias n (off + 56) l')
          → (continue_segments M virt_new image e_phoff bias n off r).0 ≡ ok l'
          → Kept l l' × AllNoted image bias (suc n) off l'
      go (ok l1, s1) here rest done =
          let f = here l1 refl in
          let (k, all) = rest l1 s1 done in
          (
            record {
              grows = (let a = f.grows in let b = k.grows in omega arith);
              keeps = λ a x. k.keeps a (f.keeps a x);
            },
            (
              λ loadable. (
                (let a = f.covers loadable in let b = k.grows in omega arith),
                λ set. k.keeps (segment_start (header_at image off) bias) (f.lowers loadable set),
              ),
              all,
            ),
          )
      go (err x, s1) here rest done = cc
      go (panicked, s1) here rest done = cc

  -- The same of the metadata of the program.
  abbrev pub AllWithin : (image : List ℕ) (bias n off : ℕ) → ElfLoadedMeta → Type 0
  AllWithin image bias zero off meta = Unit {0}
  AllWithin image bias (suc n) off meta =
      (is_loadable (header_at image off) ≡ true
        → (segment_start (header_at image off) bias + (header_at image off).p_memsz
            ≤ meta.image_end)
          × (bit_and (header_at image off).p_flags 2 ≢ 0
              → meta.rw_min ≤ segment_start (header_at image off) bias))
      × AllWithin image bias n (off + 56) meta

  AllNoted-AllWithin :
      (image : List ℕ) (bias n off : ℕ) (l : Loaded) (meta : ElfLoadedMeta)
      → meta.image_end ≡ l.image_end
      → ((a : ℕ) → Lowers l.rw_min a → meta.rw_min ≤ a)
      → AllNoted image bias n off l
      → AllWithin image bias n off meta
  AllNoted-AllWithin image bias zero off l meta end low all = tt
  AllNoted-AllWithin image bias (suc n) off l meta end low (here, all) = (
    λ loadable.
        let (covers, lowers) = here loadable in
        (
          omega (arith, covers, end),
          λ set. low (segment_start (header_at image off) bias) (lowers set),
        ),
    AllNoted-AllWithin image bias n (off + 56) l meta end low all,
  )

  pub record Reported (image : List ℕ) (bias : ℕ) (eh : ElfHeader) (r : ℕ × ElfLoadedMeta)
      : Type 0 where
    pub entry : r.0 ≡ (eh.e_entry + bias) % 2 ^ 64
    pub same_entry : r.1.entry ≡ r.0
    pub phnum : r.1.phnum ≡ eh.e_phnum
    pub phent : r.1.phent ≡ eh.e_phentsize
    pub segments : AllWithin image bias eh.e_phnum eh.e_phoff r.1

  abbrev rw_of : Option ℕ → ℕ
  rw_of o = elim o [ none ↦ user_text_base + page_size | some m ↦ m ]

  rw_of_le : (o : Option ℕ) (a : ℕ) → Lowers o a → rw_of o ≤ a
  rw_of_le none a h = absurd h
  rw_of_le (some m) a h = h

  abbrev reported : ElfHeader → (bias phdr : ℕ) → Loaded → ℕ × ElfLoadedMeta
  reported eh bias phdr l =
      let entry = (eh.e_entry + bias) % 2 ^ 64 in
      (
        entry,
        record {
          entry = entry;
          phdr = phdr;
          phnum = eh.e_phnum;
          phent = eh.e_phentsize;
          image_end = l.image_end;
          rw_min = rw_of l.rw_min;
        },
      )

  finish-Reported :
      (image : List ℕ) (bias : ℕ) (eh : ElfHeader) (l : Loaded) (r : ℕ × ElfLoadedMeta)
      → AllNoted image bias eh.e_phnum eh.e_phoff l
      → finish eh bias l ≡ ok r
      → Reported image bias eh r
  unfolding finish
  finish-Reported image bias eh l r all e = elim (Option-cases l.phdr_va) [
    | inl absent ↦
        let step : finish eh bias l ≡ err no_phdr_in_load = rw (finish, absent) refl in
        let z = sym step ∙ e in cc
    | inr (phdr, there) ↦
        let q = reported eh bias phdr l in
        let step : finish eh bias l ≡ ok q = rw (finish, there) refl in
        subst (Reported image bias eh) (ok-injective q r (sym step ∙ e)) (record {
          entry = refl;
          same_entry = refl;
          phnum = refl;
          phent = refl;
          segments =
              AllNoted-AllWithin image bias eh.e_phnum eh.e_phoff l q.1 refl (rw_of_le l.rw_min)
                all;
        })
  ]

  -- A load that succeeds, of an image with a valid header, reports the entry moved by the bias,
  -- with the number and the size of the program headers; every segment ends at or before
  -- `image_end`, and every writable one starts at or after `rw_min`.
  pub load_elf_mapped-Reported :
      (image : List ℕ) (bias : ℕ) (s : Machine T) (eh : ElfHeader) (r : ℕ × ElfLoadedMeta)
      → read_header image ≡ ok eh
      → (load_elf_mapped M virt_new image bias s).0 ≡ ok r
      → Reported image bias eh r
  unfolding load_elf_mapped
  load_elf_mapped-Reported image bias s eh r header okay =
      let start =
        load_segments M virt_new image eh.e_phoff bias eh.e_phnum eh.e_phoff nothing_loaded s in
      let step : load_elf_mapped M virt_new image bias s ≡ (start.0 >>= finish eh bias, start.1) =
        rw (load_elf_mapped, header) refl in
      let (l, loaded, rest) = >>=-ok start.0 (finish eh bias) (sym (ap (λ c. c.0) step) ∙ okay) in
      finish-Reported image bias eh l r
        (load_segments-Noted image eh.e_phoff bias eh.e_phnum eh.e_phoff nothing_loaded l s
          loaded).1
        rest
