-- ===== src/Elf/Stack/Reference.antt =====
-- The stack page is what its description says.
use mathlib.Core.List.{append_assoc, append-nil}
use rockos.Prelude.{
  ℕ, ◌+◌, ◌*◌, ◌%◌, ◌≡◌, ◌∙◌, refl, sym, ap, ap₂, Bool, true, false, List, [], ◌∷◌, ◌++◌, arith,
  length, length-append, length-replicate, replicate, ltb, if◌then◌else◌,
}
use rockos.Bytes.{to_le_bytes, words}
use rockos.Bytes.Laws.{length-to_le_bytes, length-words}
use rockos.Process.{user_stack_top}
use rockos.User.{stack_lo}
use rockos.Elf.{ok, err, ◌>>◌, fail_if, stack_ovf, ExecArgs, ElfLoadedMeta}
use rockos.Elf.Stack.{
  push_strings, fill_table, fill_aux, aux_table, StackHead, stack_head, stack_image, patch_tables,
}
use rockos.Elf.Stack.Padding.{cells, pointers, push_strings-cells}
use rockos.Elf.Stack.Tables.{entries, fill_table-words, pairs, fill_aux-words}
use rockos.Elf.Stack.Layout.{
  size_of_table, words-append, entries-append, length-pointers, length-cells, tables_size, gap_size,
  strings_base, stack_head-bytes,
}

-- A stack page that starts with the words of the tables, whose pointers give the addresses of the
-- strings, and goes on with zeros up to a multiple of 16 and the strings, those of `envp` first.
unfoldable pub reference : ElfLoadedMeta → ExecArgs → List ℕ
reference meta args =
    let argc = length args.argv in
    let envc = length args.envp in
    let base = strings_base argc envc in
    let envs = pointers base args.envp in
    let argvs = pointers (base + length (cells args.envp)) args.argv in
    words (argc ∷ (argvs ++ (0 ∷ (envs ++ (0 ∷ pairs (aux_table meta))))))
    ++ (replicate (gap_size argc envc) 0 ++ (cells args.envp ++ cells args.argv))

words-cons : (w : ℕ) (ws : List ℕ) → words (w ∷ ws) ≡ to_le_bytes 8 w ++ words ws
unfolding words
words-cons w ws = refl

length-pairs : (meta : ElfLoadedMeta) → length (pairs (aux_table meta)) ≡ 12
unfolding pairs
length-pairs meta = refl

fill_aux-twelve :
    (meta : ElfLoadedMeta) (ao : ℕ) (a c : List ℕ)
    → length a ≡ ao
    → fill_aux (aux_table meta) ao (a ++ (words (replicate 12 0) ++ c))
      ≡ ok (a ++ (words (pairs (aux_table meta)) ++ c))
unfolding pairs
fill_aux-twelve meta ao a c at = fill_aux-words (aux_table meta) ao a c at

guarded :
    (t : Bool) (l : List ℕ) → (fail_if t stack_ovf >> ok l) ≡ (if t then err stack_ovf else ok l)
guarded true l = refl
guarded false l = refl

module _ (meta : ElfLoadedMeta) (argc envc : ℕ) (argvs envs S : List ℕ)
    (argvs_size : length argvs ≡ argc) (envs_size : length envs ≡ envc) where
  -- The page before the tables are filled, and after.
  abbrev blank_page : List ℕ
  blank_page =
      to_le_bytes 8 argc
      ++ (words (replicate argc 0)
          ++ (to_le_bytes 8 0
              ++ (words (replicate envc 0) ++ (to_le_bytes 8 0 ++ (words (replicate 12 0) ++ S)))))

  abbrev filled_page : List ℕ
  filled_page = words (argc ∷ (argvs ++ (0 ∷ (envs ++ (0 ∷ pairs (aux_table meta)))))) ++ S

  abbrev page_with : (wA wE wX : List ℕ) → List ℕ
  page_with wA wE wX =
      to_le_bytes 8 argc ++ (wA ++ (to_le_bytes 8 0 ++ (wE ++ (to_le_bytes 8 0 ++ (wX ++ S)))))

  filled_page-page_with :
      page_with (words argvs) (words envs) (words (pairs (aux_table meta))) ≡ filled_page
  filled_page-page_with = simp (words-append, words-cons, append_assoc)

  fill_envs :
      fill_table envc 0 (8 + (8 * argc + 8)) 0 (envs ++ argvs) blank_page
      ≡ page_with (words (replicate argc 0)) (words envs) (words (replicate 12 0))
  fill_envs =
      let h = to_le_bytes 8 argc in
      let z = to_le_bytes 8 0 in
      let zA = words (replicate argc 0) in
      let zX = words (replicate 12 0) in
      let a = (h ++ zA) ++ z in
      let c = z ++ (zX ++ S) in
      let taken : entries envc 0 (envs ++ argvs) ≡ envs =
        ap (λ n. entries n 0 (envs ++ argvs)) (sym envs_size) ∙ entries-append envs [] argvs in
      ap (fill_table envc 0 (8 + (8 * argc + 8)) 0 (envs ++ argvs)) (simp append_assoc)
      ∙ fill_table-words envc 0 (8 + (8 * argc + 8)) 0 (envs ++ argvs) a c
          (omega (arith, size_of_table argc h (length-to_le_bytes 8 argc)))
      ∙ ap (λ l. a ++ (words l ++ c)) taken
      ∙ (simp append_assoc)

  fill_argvs :
      fill_table argc 0 8 envc
        (envs ++ argvs)
        (page_with (words (replicate argc 0)) (words envs) (words (replicate 12 0)))
      ≡ page_with (words argvs) (words envs) (words (replicate 12 0))
  fill_argvs =
      let h = to_le_bytes 8 argc in
      let z = to_le_bytes 8 0 in
      let c = z ++ (words envs ++ (z ++ (words (replicate 12 0) ++ S))) in
      let start : envc + 0 ≡ length envs = omega arith in
      let taken : entries argc (envc + 0) (envs ++ argvs) ≡ argvs =
        ap₂ (λ n k. entries n k (envs ++ argvs)) (sym argvs_size) start
        ∙ ap (entries (length argvs) (length envs)) (ap (λ l. envs ++ l) (sym (append-nil argvs)))
        ∙ entries-append argvs envs [] in
      fill_table-words argc 0 8 envc (envs ++ argvs) h c (omega (arith, length-to_le_bytes 8 argc))
      ∙ ap (λ l. h ++ (words l ++ c)) taken

  fill_auxv :
      fill_aux
        (aux_table meta)
        (8 + (8 * argc + 8) + (envc + 1) * 8)
        (page_with (words argvs) (words envs) (words (replicate 12 0)))
      ≡ ok (page_with (words argvs) (words envs) (words (pairs (aux_table meta))))
  fill_auxv =
      let h = to_le_bytes 8 argc in
      let z = to_le_bytes 8 0 in
      let a = ((h ++ words argvs) ++ z) ++ words envs ++ z in
      let sized : length a ≡ 8 + (8 * argc + 8) + (envc + 1) * 8 = omega (
        arith,
        length-append (((h ++ words argvs) ++ z) ++ words envs) z,
        length-append ((h ++ words argvs) ++ z) (words envs),
        length-append (h ++ words argvs) z,
        length-append h (words argvs),
        length-words argvs,
        length-words envs,
        length-to_le_bytes 8 argc,
        length-to_le_bytes 8 0,
      ) in
      ap (fill_aux (aux_table meta) (8 + (8 * argc + 8) + (envc + 1) * 8)) (simp append_assoc)
      ∙ fill_aux-twelve meta (8 + (8 * argc + 8) + (envc + 1) * 8) a S sized
      ∙ ap ok (simp append_assoc)

  length-page_with :
      (wA wE wX : List ℕ)
      → length (page_with wA wE wX) ≡ 24 + (length wA + length wE + length wX + length S)
  length-page_with wA wE wX =
      let h = to_le_bytes 8 argc in
      let z = to_le_bytes 8 0 in
      omega (
        arith,
        length-append h (wA ++ (z ++ (wE ++ (z ++ (wX ++ S))))),
        length-append wA (z ++ (wE ++ (z ++ (wX ++ S)))),
        length-append z (wE ++ (z ++ (wX ++ S))),
        length-append wE (z ++ (wX ++ S)),
        length-append z (wX ++ S),
        length-append wX S,
        length-to_le_bytes 8 argc,
        length-to_le_bytes 8 0,
      )

  length-page : length blank_page ≡ length filled_page
  length-page =
      length-page_with (words (replicate argc 0)) (words (replicate envc 0))
        (words (replicate 12 0))
      ∙ omega (
        arith,
        length-words (replicate argc 0),
        length-words (replicate envc 0),
        length-words (replicate 12 0),
        length-replicate {A = ℕ} argc 0,
        length-replicate {A = ℕ} envc 0,
        length-words argvs,
        length-words envs,
        length-words (pairs (aux_table meta)),
        length-pairs meta,
      )
      ∙ sym (length-page_with (words argvs) (words envs) (words (pairs (aux_table meta))))
      ∙ ap length filled_page-page_with

  patch_tables-page :
      (head : StackHead)
      → head.argv_tab ≡ 8
      → head.env_tab ≡ 8 + (8 * argc + 8)
      → patch_tables meta argc envc head (blank_page, envs ++ argvs)
        ≡ (if ltb 4096 (length filled_page) then err stack_ovf else ok filled_page)
  unfolding patch_tables
  patch_tables-page head at_argv at_env =
      let test : ltb user_stack_top (stack_lo + length blank_page) ≡ ltb 4096 (length filled_page) =
        ground (arith, length-page) in
      let filled : fill_aux (aux_table meta) (head.env_tab + (envc + 1) * 8) (
            fill_table argc 0 head.argv_tab envc (envs ++ argvs)
              (fill_table envc 0 head.env_tab 0 (envs ++ argvs) blank_page))
          ≡ ok filled_page =
        ap₂
          (λ e a. fill_aux (aux_table meta) (e + (envc + 1) * 8) (
            fill_table argc 0 a envc (envs ++ argvs)
              (fill_table envc 0 e 0 (envs ++ argvs) blank_page)))
          at_env at_argv
        ∙ ap
            (λ l.
              fill_aux (aux_table meta) (8 + (8 * argc + 8) + (envc + 1) * 8)
                (fill_table argc 0 8 envc (envs ++ argvs) l))
            fill_envs
        ∙ ap (fill_aux (aux_table meta) (8 + (8 * argc + 8) + (envc + 1) * 8)) fill_argvs
        ∙ fill_auxv
        ∙ ap ok filled_page-page_with in
      ap₂ (λ t r. fail_if t stack_ovf >> r) test filled
      ∙ guarded (ltb 4096 (length filled_page)) filled_page

-- The strings of both lists, from the start of the strings on.
push_strings-both :
    (args : ExecArgs) (v : List ℕ)
    → length v % 8 ≡ 0
    → push_strings args.argv (push_strings args.envp (v, [])) ≡ (
      v ++ (cells args.envp ++ cells args.argv),
      pointers (stack_lo + length v) args.envp
          ++ pointers (stack_lo + length v + length (cells args.envp)) args.argv,
    )
push_strings-both args v aligned =
    let v' = v ++ cells args.envp in
    let longer : length v' ≡ length v + length (cells args.envp) =
      length-append v (cells args.envp) in
    let p = pointers (stack_lo + length v) args.envp in
    ap (push_strings args.argv) (push_strings-cells args.envp v [] aligned)
    ∙ push_strings-cells args.argv v' p (omega (arith, longer, length-cells args.envp))
    ∙ ap₂ (λ x n. (x, p ++ pointers n args.argv))
        (append_assoc v (cells args.envp) (cells args.argv)) (omega (arith, longer))

length-head :
    (argc envc : ℕ)
    → length (stack_head argc envc).bytes ≡ tables_size argc envc + gap_size argc envc
length-head argc envc =
    let G = replicate (gap_size argc envc) 0 in
    let nA = replicate argc 0 in
    let nE = replicate envc 0 in
    let meta : ElfLoadedMeta = record {
      entry = 0;
      phdr = 0;
      phnum = 0;
      phent = 0;
      image_end = 0;
      rw_min = 0;
    } in
    ap length (stack_head-bytes argc envc).2
    ∙ length-page_with meta argc envc nA nE G (length-replicate {A = ℕ} argc 0)
        (length-replicate {A = ℕ} envc 0) (words nA) (words nE) (words (replicate 12 0))
    ∙ omega (
      arith,
      length-words nA,
      length-words nE,
      length-words (replicate 12 0),
      length-replicate {A = ℕ} argc 0,
      length-replicate {A = ℕ} envc 0,
      length-replicate {A = ℕ} (gap_size argc envc) 0,
    )

-- The stack page that the loader builds word by word is the one that its description gives, or the
-- loader reports an overflow, exactly where that is longer than a page.
pub stack_image-reference :
    (meta : ElfLoadedMeta) (args : ExecArgs)
    → stack_image meta args ≡ (
        if ltb 4096 (length (reference meta args)) then err stack_ovf else ok (reference meta args))
unfolding stack_image reference
stack_image-reference meta args =
    let argc = length args.argv in
    let envc = length args.envp in
    let h = stack_head argc envc in
    let (at_argv, at_env, bytes) = stack_head-bytes argc envc in
    let sized : length h.bytes ≡ tables_size argc envc + gap_size argc envc =
      length-head argc envc in
    let C = cells args.envp ++ cells args.argv in
    let S = replicate (gap_size argc envc) 0 ++ C in
    let base = strings_base argc envc in
    let envs = pointers base args.envp in
    let argvs = pointers (base + length (cells args.envp)) args.argv in
    let argvs_size : length argvs ≡ argc =
      length-pointers (base + length (cells args.envp)) args.argv in
    let envs_size : length envs ≡ envc = length-pointers base args.envp in
    ap (patch_tables meta argc envc h) (
      push_strings-both args h.bytes (omega (arith, sized))
      ∙ ap₂ (λ v n. (v, pointers n args.envp ++ pointers (n + length (cells args.envp)) args.argv))
          (ap (λ l. l ++ C) bytes ∙ (simp append_assoc)) (omega (arith, sized)))
    ∙ patch_tables-page meta argc envc argvs envs S argvs_size envs_size h at_argv at_env
