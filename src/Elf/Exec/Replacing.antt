-- ===== src/Elf/Exec/Replacing.antt =====
-- `load_elf_exec` of src/elf.rs as a whole: the old image goes, the new program comes, with its stack.
use rockos.Prelude.{ℕ, ◌^◌, ◌≤◌, ◌≡◌, ◌∙◌, refl, sym, ap, subst, Option, List}
use rockos.Brk.{Mapper}
use rockos.User.{user_text_base, stack_lo}
use rockos.Paging.{Machine, read_user}
use rockos.Paging.Access.{written_at}
use rockos.Elf.{Result, ok, err, panicked, ◌>>=◌, >>=-ok, ExecArgs, ElfLoadedMeta}
use rockos.Elf.Stack.Reference.{reference}
use rockos.Elf.Headers.{ElfHeader, read_header}
use rockos.Elf.Loader.{load_elf_mapped}
use rockos.Elf.Loader.Frames.{TakesFrames, Owned}
use rockos.Elf.Loader.Segments.{KeepsLow, Loads}
use rockos.Elf.Loader.Reference.{load_reference, AllLow}
use rockos.Elf.Loader.Whole.{load_elf_mapped-reference}
use rockos.Elf.Exec.{
  Program, apply_user_meta, unmap_old_image_best_effort, build_exec_stack, load_elf_exec,
}
use rockos.Elf.Exec.Unmapping.{without_image, unmap_old_image-without_image}
use rockos.Elf.Exec.Clearing.{UnmapsFrames, cleared_at, old_pages, without_image-Cleared}
use rockos.Elf.Exec.Starting.{build_exec_stack-built}

module _ {T : Type 0} (M : Mapper T) (virt_new : ℕ → Option ℕ) where
  -- What `load_elf_exec` does with the answer of the loader.
  abbrev pub continue_exec :
      ExecArgs → Program T → Result (ℕ × ElfLoadedMeta) × Machine T → Result (ℕ × ℕ) × Program T
  continue_exec args p r = elim r.0 [
    | err e ↦ (err e, record p { machine = r.1 })
    | panicked ↦ (panicked, record p { machine = r.1 })
    | ok l ↦
        let (q, s') = build_exec_stack M l.1 args r.1 in
        (q >>= λ rsp. ok (l.0, rsp), record { machine = s'; image = apply_user_meta l.1 p.image })
  ]

  abbrev continue_unmapped :
      (image : List ℕ) (bias : ℕ)
      → ExecArgs
      → Program T
      → Result (Unit {0}) × Machine T
      → Result (ℕ × ℕ) × Program T
  continue_unmapped image bias args p u = elim u.0 [
    | err e ↦ (err e, record p { machine = u.1 })
    | panicked ↦ (panicked, record p { machine = u.1 })
    | ok passed ↦ continue_exec args p (load_elf_mapped M virt_new image bias u.1)
  ]

  -- With the image in the low half, the pages go and the loader runs.
  pub load_elf_exec-continue_exec :
      (low : KeepsLow virt_new) (image : List ℕ) (bias : ℕ) (args : ExecArgs) (p : Program T)
      → p.image.image_end ≤ 2 ^ 47
      → load_elf_exec M virt_new image bias args p
        ≡ continue_exec args p
            (load_elf_mapped M virt_new image bias (without_image M p.image.image_end p.machine))
  unfolding load_elf_exec
  load_elf_exec-continue_exec low image bias args p h =
      ap (continue_unmapped image bias args p)
        (unmap_old_image-without_image M virt_new low p.image.image_end p.machine h)

module _ {T : Type 0} (M : Mapper T) (virt_new : ℕ → Option ℕ) (low : KeepsLow virt_new)
    (frames : TakesFrames M) (unmaps : UnmapsFrames M) where
  -- The new memory of a program that was started, after `loaded` came of its image.
  pub record Started (read : ℕ → Option ℕ) (args : ExecArgs) (p : Program T)
      (loaded : Result (ℕ × ElfLoadedMeta)) (entry rsp : ℕ) (p' : Program T) : Type 0 where
    pub meta : ElfLoadedMeta
    pub was_loaded : loaded ≡ ok (entry, meta)
    pub at_stack : rsp ≡ stack_lo
    pub image : p'.image ≡ apply_user_meta meta p.image
    pub reads :
        (va : ℕ)
        → read_user M p'.machine.pages p'.machine.ram va
          ≡ written_at stack_lo (reference meta args) read va

  continue_exec-Started :
      (read : ℕ → Option ℕ) (args : ExecArgs) (p : Program T) (entry rsp : ℕ)
      (r : Result (ℕ × ElfLoadedMeta) × Machine T)
      → ((l : ℕ × ElfLoadedMeta) → r.0 ≡ ok l → Loads M virt_new low read r.1)
      → (continue_exec M virt_new args p r).0 ≡ ok (entry, rsp)
      → Started read args p r.0 entry rsp (continue_exec M virt_new args p r).1
  continue_exec-Started read args p entry rsp (ok l, s) loads okay =
      let f = loads l refl in
      let (rsp', built, same) = >>=-ok (build_exec_stack M l.1 args s).0 (λ n. ok (l.0, n)) okay in
      let b = build_exec_stack-built M l.1 args s rsp' f.owned.distinct built in
      record {
        meta = l.1;
        was_loaded =
            ap (λ n. ok (n, l.1))
              (ap (λ q. elim q [ ok n ↦ n.0 | err e ↦ entry | panicked ↦ entry ]) same);
        at_stack = sym (ap (λ q. elim q [ ok n ↦ n.1 | err e ↦ rsp | panicked ↦ rsp ]) same) ∙ b.0;
        image = refl;
        reads = λ va.
            b.1 va
            ∙ ap (λ m. written_at stack_lo (reference l.1 args) m va) (λ i. λ a. f.reads a i);
      }
  continue_exec-Started read args p entry rsp (err e, s) loads okay = cc
  continue_exec-Started read args p entry rsp (panicked, s) loads okay = cc

  -- A successful execve by a caller whose USER_IMAGE_END is in the low half leaves exactly this in
  -- user memory: the new program's first stack from the stack pointer on, over the segments of the
  -- new program, over what is left of the old memory once the pages from USER_TEXT_BASE to
  -- USER_IMAGE_END are gone.
  pub load_elf_exec-reference :
      (image : List ℕ) (bias : ℕ) (args : ExecArgs) (p : Program T) (eh : ElfHeader) (entry rsp : ℕ)
      → Owned M p.machine
      → read_header image ≡ ok eh
      → AllLow image bias eh.e_phnum eh.e_phoff
      → p.image.image_end ≤ 2 ^ 47
      → (load_elf_exec M virt_new image bias args p).0 ≡ ok (entry, rsp)
      → Started
          (load_reference image bias eh.e_phnum eh.e_phoff (
            cleared_at user_text_base
              (old_pages M unmaps p.image.image_end)
              (read_user M p.machine.pages p.machine.ram)))
          args
          p
          (load_elf_mapped M virt_new image bias
            (unmap_old_image_best_effort M virt_new p.image.image_end p.machine).1).0
          entry
          rsp
          (load_elf_exec M virt_new image bias args p).1
  load_elf_exec-reference image bias args p eh entry rsp o header fits end_low okay =
      let hi = p.image.image_end in
      let s = without_image M hi p.machine in
      let c = without_image-Cleared M unmaps hi p.machine o in
      let r = load_elf_mapped M virt_new image bias s in
      let same = load_elf_exec-continue_exec M virt_new low image bias args p end_low in
      let unmapped = unmap_old_image-without_image M virt_new low hi p.machine end_low in
      let read = load_reference image bias eh.e_phnum eh.e_phoff (
        cleared_at user_text_base (old_pages M unmaps hi)
          (read_user M p.machine.pages p.machine.ram)) in
      let started =
        continue_exec-Started read args p entry rsp r
          (λ l e.
            subst
              (λ m. Loads M virt_new low (load_reference image bias eh.e_phnum eh.e_phoff m) r.1)
              (λ i. λ a. c.reads a i)
              (load_elf_mapped-reference M virt_new low frames image bias s eh l c.owned header fits
                e))
          (ap (λ q. q.0) (sym same) ∙ okay) in
      subst {A = Result (ℕ × ElfLoadedMeta) × Program T}
        (λ q. Started read args p q.0 entry rsp q.1)
        (λ i. ((load_elf_mapped M virt_new image bias (sym unmapped i).1).0, (sym same i).1))
        started
