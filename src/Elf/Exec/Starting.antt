-- ===== src/Elf/Exec/Starting.antt =====
-- What the first stack of a program holds once `build_exec_stack` of src/elf.rs has written it.
use rockos.Prelude.{
  ℕ, ◌+◌, ◌%◌, ◌≤◌, ◌≡◌, ◌∙◌, refl, sym, ap, true, some, List, [], ◌∷◌, arith, length, ltb,
  if◌then◌else◌, Bool-cases, inl, inr,
}
use rockos.Memory.{page_size}
use rockos.Brk.{Mapper, containing_address}
use rockos.User.{stack_lo}
use rockos.Paging.{Physical, Machine, translate_addr, read_user, write_user_byte, write_user_bytes}
use rockos.Paging.Access.{
  Distinct, written_at, write_user_byte-some, write_user_bytes-true, read_user-write_user_bytes,
}
use rockos.Elf.{ElfError, stack_ovf, no_map, ok, err, panicked, ExecArgs, ElfLoadedMeta}
use rockos.Elf.Stack.{stack_image}
use rockos.Elf.Stack.Reference.{reference, stack_image-reference}
use rockos.Elf.Exec.{build_exec_stack}

module _ {T : Type 0} (M : Mapper T) where
  translate_addr-page :
      (t : T) (va frame : ℕ)
      → M.translate t (containing_address va) ≡ some frame
      → translate_addr M t va ≡ some (frame + va % page_size)
  unfolding translate_addr
  translate_addr-page t va frame e = rw (translate_addr, e) refl

  -- Writes within a mapped page succeed.
  write_user_bytes-page :
      (t : T) (bs : List ℕ) (ram : Physical) (page va frame : ℕ)
      → M.translate t page ≡ some frame
      → page % page_size ≡ 0
      → page ≤ va
      → va + length bs ≤ page + page_size
      → (write_user_bytes M t ram va bs).0 ≡ true
  unfolding write_user_bytes
  write_user_bytes-page t [] ram page va frame there start after within = refl
  write_user_bytes-page t (b ∷ bs) ram page va frame there start after within =
      let at : page ≡ containing_address va = omega arith in
      let w =
        write_user_byte-some M t ram va b (frame + va % page_size)
          (translate_addr-page t va frame (ap (M.translate t) (sym at) ∙ there)) in
      let okay = ap (λ r. r.0) w in
      ap (λ r. r.0) (write_user_bytes-true M t ram va b bs okay)
      ∙ write_user_bytes-page t bs (write_user_byte M t ram va b).1 page (va + 1) frame there start
          (omega arith) (omega arith)

  module _ (meta : ElfLoadedMeta) (args : ExecArgs) (s : Machine T) where
    build_exec_stack-ok :
        (v : List ℕ)
        → stack_image meta args ≡ ok v
        → build_exec_stack M meta args s ≡ (
            let (written, ram) = write_user_bytes M s.pages s.ram stack_lo v in
            ((if written then ok stack_lo else err no_map), record s { ram = ram }))
    unfolding build_exec_stack
    build_exec_stack-ok v e = rw (build_exec_stack, e) refl

    build_exec_stack-err :
        (e : ElfError) → stack_image meta args ≡ err e → build_exec_stack M meta args s ≡ (err e, s)
    unfolding build_exec_stack
    build_exec_stack-err e h = rw (build_exec_stack, h) refl

    -- Where the stack page is mapped and pages have frames of their own: a stack longer than a
    -- page is refused, and user memory reads as before; any other is in user memory afterwards,
    -- from the stack pointer returned on, with every address outside it as before.
    pub build_exec_stack-reference :
        (frame va : ℕ)
        → Distinct M s.pages
        → M.translate s.pages stack_lo ≡ some frame
        → let v = reference meta args in
          let (r, s') = build_exec_stack M meta args s in
          (r ≡ (if ltb 4096 (length v) then err stack_ovf else ok stack_lo))
          × (read_user M s'.pages s'.ram va ≡ (
              if ltb 4096 (length v)
              then read_user M s.pages s.ram va
              else written_at stack_lo v (read_user M s.pages s.ram) va))
    build_exec_stack-reference frame va d there =
        let v = reference meta args in
        let image = stack_image-reference meta args in
        elim (Bool-cases (ltb 4096 (length v))) [
          | inl over ↦
              let refused =
                build_exec_stack-err stack_ovf
                  (image ∙ ap (λ b. if b then err stack_ovf else ok v) over) in
              rw over (ap (λ r. r.0) refused, ap (λ r. read_user M r.1.pages r.1.ram va) refused)
          | inr under ↦
              let built =
                build_exec_stack-ok v (image ∙ ap (λ b. if b then err stack_ovf else ok v) under) in
              let fits : length v ≤ page_size = ground arith in
              let okay =
                write_user_bytes-page s.pages v s.ram stack_lo stack_lo frame there (omega arith)
                  (omega arith) (omega (arith, fits)) in
              rw under (
                ap (λ r. r.0) built ∙ ap (λ b. if b then ok stack_lo else err no_map) okay,
                ap (λ r. read_user M r.1.pages r.1.ram va) built
                    ∙ read_user-write_user_bytes M s.pages v s.ram stack_lo va d okay,
              )
        ]

    -- What a stack that was built says of itself, with no assumption on the stack page.
    pub build_exec_stack-built :
        (rsp : ℕ)
        → Distinct M s.pages
        → (build_exec_stack M meta args s).0 ≡ ok rsp
        → (rsp ≡ stack_lo)
          × ((va : ℕ)
              → let s' = (build_exec_stack M meta args s).1 in
                read_user M s'.pages s'.ram va
                ≡ written_at stack_lo (reference meta args) (read_user M s.pages s.ram) va)
    build_exec_stack-built rsp d okay =
        let v = reference meta args in
        let image = stack_image-reference meta args in
        elim (Bool-cases (ltb 4096 (length v))) [
          | inl over ↦
              (let stopped =
                  build_exec_stack-err stack_ovf
                    (image ∙ ap (λ b. if b then err stack_ovf else ok v) over) in
                let r = sym (ap (λ c. c.0) stopped) ∙ okay in cc)
          | inr under ↦
              let built =
                build_exec_stack-ok v (image ∙ ap (λ b. if b then err stack_ovf else ok v) under) in
              elim (Bool-cases (write_user_bytes M s.pages s.ram stack_lo v).0) [
                | inr failed ↦
                    (let r =
                        sym (ap (λ b. if b then ok stack_lo else err no_map) failed)
                        ∙ sym (ap (λ c. c.0) built)
                        ∙ okay in
                      cc)
                | inl written ↦
                    let r =
                      sym (ap (λ b. if b then ok stack_lo else err no_map) written)
                      ∙ sym (ap (λ c. c.0) built)
                      ∙ okay in
                    (
                      ap (λ q. elim q [ ok n ↦ n | err e ↦ rsp | panicked ↦ rsp ]) (sym r),
                      λ va.
                          ap (λ c. read_user M c.1.pages c.1.ram va) built
                          ∙ read_user-write_user_bytes M s.pages v s.ram stack_lo va d written,
                    )
              ]
        ]
