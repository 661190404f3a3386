-- ===== src/Elf/Loader/Whole.antt =====
-- `load_elf_mapped` of src/elf.rs as a whole.
use rockos.Prelude.{ℕ, ◌≡◌, ◌∙◌, refl, sym, ap, Option, List}
use rockos.Brk.{Mapper}
use rockos.Paging.{Machine, read_user}
use rockos.Elf.{ok, ◌>>=◌, >>=-ok, ElfLoadedMeta}
use rockos.Elf.Headers.{ElfHeader, read_header, nothing_loaded, finish}
use rockos.Elf.Loader.{load_segments, load_elf_mapped}
use rockos.Elf.Loader.Frames.{TakesFrames, Owned}
use rockos.Elf.Loader.Segments.{KeepsLow, Loads}
use rockos.Elf.Loader.Reference.{load_reference, AllLow, load_segments-Loads}

module _ {T : Type 0} (M : Mapper T) (virt_new : ℕ → Option ℕ) (low : KeepsLow virt_new)
    (frames : TakesFrames M) where
  -- A load that succeeds, of an image whose segments lie in the low half of the address space,
  -- into a memory whose pages have frames of their own that the allocator holds as used: user
  -- memory then reads as the reference loader leaves it, and pages still have frames of their own.
  pub load_elf_mapped-reference :
      (image : List ℕ) (bias : ℕ) (s : Machine T) (eh : ElfHeader) (r : ℕ × ElfLoadedMeta)
      → Owned M s
      → read_header image ≡ ok eh
      → AllLow image bias eh.e_phnum eh.e_phoff
      → (load_elf_mapped M virt_new image bias s).0 ≡ ok r
      → Loads M virt_new low
          (load_reference image bias eh.e_phnum eh.e_phoff (read_user M s.pages s.ram))
          (load_elf_mapped M virt_new image bias s).1
  unfolding load_elf_mapped
  load_elf_mapped-reference image bias s eh r o header fits okay =
      let step : load_elf_mapped M virt_new image bias s ≡ (
          let (q, s') =
            load_segments M virt_new image eh.e_phoff bias eh.e_phnum eh.e_phoff nothing_loaded s in
          (q >>= finish eh bias, s')) =
        rw (load_elf_mapped, header) refl in
      let (l, loaded, rest) =
        >>=-ok
          (load_segments M virt_new image eh.e_phoff bias eh.e_phnum eh.e_phoff nothing_loaded s).0
          (finish eh bias) (sym (ap (λ c. c.0) step) ∙ okay) in
      rw step (
        load_segments-Loads M virt_new low frames image eh.e_phoff bias eh.e_phnum eh.e_phoff
          nothing_loaded l s o fits loaded)
