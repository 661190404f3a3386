-- ===== src/Elf/Stack/Layout.antt =====
-- The stack page against its description: the words of the tables, a gap, and the strings.
use mathlib.Core.List.{append_assoc}
use rockos.Prelude.{
  ℕ, suc, ◌+◌, ◌*◌, ◌%◌, ◌≡◌, ◌∙◌, refl, sym, ap, ap₂, List, [], ◌∷◌, ◌++◌, arith, length,
  length-append, length-replicate, replicate, get_or,
}
use rockos.Bytes.{to_le_bytes, words}
use rockos.Bytes.Laws.{length-to_le_bytes, length-words}
use rockos.User.{stack_lo}
use rockos.Elf.Stack.{extend_zeros, pad, push_until, align_up, stack_head}
use rockos.Elf.Stack.Padding.{
  length-cell, gap, pad16, push_until_aligned, extend_zeros-words, cell, cells, pointers,
}
use rockos.Elf.Stack.Tables.{entries}

pub words-append : (ws us : List ℕ) → words (ws ++ us) ≡ words ws ++ words us
unfolding words
words-append [] us = refl
words-append (w ∷ ws) us =
    ap (λ l. to_le_bytes 8 w ++ l) (words-append ws us)
    ∙ sym (append_assoc (to_le_bytes 8 w) (words ws) (words us))

pub get_or-append : (l m : List ℕ) (x d : ℕ) → get_or (l ++ x ∷ m) (length l) d ≡ x
get_or-append [] m x d = refl
get_or-append (y ∷ l) m x d = get_or-append l m x d

pub entries-append : (m l r : List ℕ) → entries (length m) (length l) (l ++ (m ++ r)) ≡ m
unfolding entries
entries-append [] l r = refl
entries-append (x ∷ m) l r =
    let l' = l ++ x ∷ [] in
    ap₂ (λ a b. a ∷ b) (get_or-append l (m ++ r) x 0)
      (ap₂ (entries (length m)) (omega (arith, length-append l (x ∷ [])))
          (sym (append_assoc l (x ∷ []) (m ++ r)))
        ∙ entries-append m l' r)

pub length-pointers : (base : ℕ) (es : List (List ℕ)) → length (pointers base es) ≡ length es
unfolding pointers
length-pointers base [] = refl
length-pointers base (e ∷ es) = ap suc (length-pointers (base + length (cell e)) es)

pub length-cells : (es : List (List ℕ)) → length (cells es) % 8 ≡ 0
unfolding cells
length-cells [] = refl
length-cells (e ∷ es) =
    omega (arith, length-append (cell e) (cells es), length-cell e, length-cells es)

-- The bytes before the gap: `argc`, two tables that each end in a zero, and six pairs.
abbrev pub tables_size : (argc envc : ℕ) → ℕ
tables_size argc envc = 8 * (1 + argc + 1 + envc + 1 + 12)

abbrev pub gap_size : (argc envc : ℕ) → ℕ
gap_size argc envc = gap 16 (tables_size argc envc)

-- Where the strings begin.
abbrev pub strings_base : (argc envc : ℕ) → ℕ
strings_base argc envc = stack_lo + (tables_size argc envc + gap_size argc envc)

pub size_of_table :
    (n : ℕ) (a : List ℕ)
    → length a ≡ 8
    → length ((a ++ words (replicate n 0)) ++ to_le_bytes 8 0) ≡ 8 + (8 * n + 8)
size_of_table n a size = omega (
  arith,
  length-append (a ++ words (replicate n 0)) (to_le_bytes 8 0),
  length-append a (words (replicate n 0)),
  length-words (replicate n 0),
  length-replicate {A = ℕ} n 0,
  length-to_le_bytes 8 0,
)

pub stack_head-bytes :
    (argc envc : ℕ)
    → let h = stack_head argc envc in
      (h.argv_tab ≡ 8)
      × (h.env_tab ≡ 8 + (8 * argc + 8))
      × (h.bytes
          ≡ to_le_bytes 8 argc
            ++ (words (replicate argc 0)
                ++ (to_le_bytes 8 0
                    ++ (words (replicate envc 0)
                        ++ (to_le_bytes 8 0
                            ++ (words (replicate 12 0) ++ replicate (gap_size argc envc) 0))))))
unfolding stack_head
stack_head-bytes argc envc =
    let h = to_le_bytes 8 argc in
    let z = to_le_bytes 8 0 in
    let zA = words (replicate argc 0) in
    let zE = words (replicate envc 0) in
    let zX = words (replicate 12 0) in
    let first : extend_zeros argc h ++ z ≡ (h ++ zA) ++ z =
      ap (λ l. l ++ z) (extend_zeros-words argc h) in
    let v2 = ((h ++ zA) ++ z) ++ zE ++ z in
    let second : extend_zeros 12 (extend_zeros envc (extend_zeros argc h ++ z) ++ z) ≡ v2 ++ zX =
      extend_zeros-words 12 (extend_zeros envc (extend_zeros argc h ++ z) ++ z)
      ∙ ap (λ l. l ++ z ++ zX)
          (extend_zeros-words envc (extend_zeros argc h ++ z) ∙ ap (λ l. l ++ zE) first) in
    let sizeA : length ((h ++ zA) ++ z) ≡ 8 + (8 * argc + 8) =
      size_of_table argc h (length-to_le_bytes 8 argc) in
    let size : length (v2 ++ zX) ≡ tables_size argc envc = omega (
      arith,
      sizeA,
      length-append v2 zX,
      length-append (((h ++ zA) ++ z) ++ zE) z,
      length-append ((h ++ zA) ++ z) zE,
      length-words (replicate envc 0),
      length-words (replicate 12 0),
      length-replicate {A = ℕ} envc 0,
      length-to_le_bytes 8 0,
    ) in
    let G = replicate (gap_size argc envc) 0 in
    let third : pad 16 16 (extend_zeros 12 (extend_zeros envc (extend_zeros argc h ++ z) ++ z))
        ≡ (v2 ++ zX) ++ G =
      ap (pad 16 16) second
      ∙ pad16 (v2 ++ zX)
      ∙ ap (λ n. (v2 ++ zX) ++ replicate (gap 16 n) 0) size in
    let aligned : length ((v2 ++ zX) ++ G) % 16 ≡ 0 =
      omega (
        arith,
        size,
        length-append (v2 ++ zX) G,
        length-replicate {A = ℕ} (gap_size argc envc) 0,
      ) in
    (
      length-to_le_bytes 8 argc,
      ap length first ∙ sizeA,
      ap (λ p. push_until 16 (align_up (length p) 16) p) third
          ∙ push_until_aligned 16 ((v2 ++ zX) ++ G) aligned
          ∙ (simp append_assoc),
    )
