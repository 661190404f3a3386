-- ===== src/Elf/Stack/Tables.antt =====
-- What the loops write into the tables of zeros.
use mathlib.Core.List.{append_assoc}
use rockos.Prelude.{
  ℕ, zero, suc, ◌+◌, ◌*◌, ◌≤◌, ◌≡◌, ◌∙◌, refl, sym, ap, ap₂, false, List, [], ◌∷◌, ◌++◌, arith,
  length, length-append, replicate, take, drop, get_or, ltb,
}
use rockos.Bytes.{to_le_bytes, words}
use rockos.Bytes.Laws.{length-to_le_bytes}
use rockos.Elf.{ok}
use rockos.Elf.Stack.{write_word, fill_table, fill_aux}

take-append : (a b : List ℕ) → take (length a) (a ++ b) ≡ a
take-append [] b = refl
take-append (x ∷ a) b = ap (λ l. x ∷ l) (take-append a b)

drop-append : (a b : List ℕ) → drop (length a) (a ++ b) ≡ b
drop-append [] b = refl
drop-append (x ∷ a) b = drop-append a b

-- A word written over eight bytes.
write_word-between :
    (a b c : List ℕ) (o w : ℕ)
    → o ≡ length a
    → length b ≡ 8
    → write_word (a ++ (b ++ c)) o w ≡ a ++ (to_le_bytes 8 w ++ c)
unfolding write_word
write_word-between a b c o w at size =
    let X = b ++ c in
    let front : take o (a ++ X) ≡ a = ap (λ n. take n (a ++ X)) at ∙ take-append a X in
    let back : drop (o + 8) (a ++ X) ≡ c =
      ap (λ l. drop (o + 8) l) (sym (append_assoc a b c))
      ∙ ap (λ n. drop n ((a ++ b) ++ c)) (omega (arith, length-append a b))
      ∙ drop-append (a ++ b) c in
    ap₂ (λ x y. (x ++ to_le_bytes 8 w) ++ y) front back ∙ append_assoc a (to_le_bytes 8 w) c

regroup : (a x y c : List ℕ) → (a ++ x) ++ (y ++ c) ≡ a ++ ((x ++ y) ++ c)
regroup a x y c = append_assoc a x (y ++ c) ∙ ap (λ l. a ++ l) (sym (append_assoc x y c))

-- A word written over the first of several words of zero.
write_word-first :
    (a rest c : List ℕ) (o w : ℕ)
    → o ≡ length a
    → write_word (a ++ ((to_le_bytes 8 0 ++ rest) ++ c)) o w ≡ (a ++ to_le_bytes 8 w) ++ (rest ++ c)
write_word-first a rest c o w at =
    ap (λ l. write_word (a ++ l) o w) (append_assoc (to_le_bytes 8 0) rest c)
    ∙ write_word-between a (to_le_bytes 8 0) (rest ++ c) o w at (length-to_le_bytes 8 0)
    ∙ sym (append_assoc a (to_le_bytes 8 w) (rest ++ c))

length-snoc_word : (a : List ℕ) (w : ℕ) → length (a ++ to_le_bytes 8 w) ≡ length a + 8
length-snoc_word a w = omega (arith, length-append a (to_le_bytes 8 w), length-to_le_bytes 8 w)

-- The entries of `str_off` that a table takes.
unfoldable pub entries : (n first : ℕ) → List ℕ → List ℕ
entries zero first l = []
entries (suc n) first l = get_or l first 0 ∷ entries n (first + 1) l

pub fill_table-words :
    (n i tab first : ℕ) (str_off a c : List ℕ)
    → length a ≡ tab + i * 8
    → fill_table n i tab first str_off (a ++ (words (replicate n 0) ++ c))
      ≡ a ++ (words (entries n (first + i) str_off) ++ c)
unfolding fill_table entries words
fill_table-words zero i tab first str_off a c at = refl
fill_table-words (suc n) i tab first str_off a c at =
    let p = get_or str_off (first + i) 0 in
    let a' = a ++ to_le_bytes 8 p in
    let next : first + (i + 1) ≡ first + i + 1 = omega arith in
    ap (fill_table n (i + 1) tab first str_off)
      (write_word-first a (words (replicate n 0)) c (tab + i * 8) p (sym at))
    ∙ fill_table-words n (i + 1) tab first str_off a' c (omega (arith, length-snoc_word a p))
    ∙ ap (λ k. a' ++ (words (entries n k str_off) ++ c)) next
    ∙ regroup a (to_le_bytes 8 p) (words (entries n (first + i + 1) str_off)) c

-- The words of the auxiliary vector.
unfoldable pub pairs : List (ℕ × ℕ) → List ℕ
pairs [] = []
pairs ((tag, val) ∷ aux) = tag ∷ val ∷ pairs aux

-- There is room for two words.
room :
    (a Z c : List ℕ) (ao : ℕ)
    → length a ≡ ao
    → ltb (length (a ++ ((to_le_bytes 8 0 ++ (to_le_bytes 8 0 ++ Z)) ++ c))) (ao + 16) ≡ false
room a Z c ao at =
    let z = to_le_bytes 8 0 in
    let long : ao + 16 ≤ length (a ++ ((z ++ (z ++ Z)) ++ c)) = omega (
      arith,
      length-append a ((z ++ (z ++ Z)) ++ c),
      length-append (z ++ (z ++ Z)) c,
      length-append z (z ++ Z),
      length-append z Z,
      length-to_le_bytes 8 0,
    ) in
    ground arith

pub fill_aux-words :
    (aux : List (ℕ × ℕ)) (ao : ℕ) (a c : List ℕ)
    → length a ≡ ao
    → fill_aux aux ao (a ++ (words (replicate (length (pairs aux)) 0) ++ c))
      ≡ ok (a ++ (words (pairs aux) ++ c))
unfolding fill_aux pairs words
fill_aux-words [] ao a c at = refl
fill_aux-words ((tag, val) ∷ aux) ao a c at =
    let Z = words (replicate (length (pairs aux)) 0) in
    let z = to_le_bytes 8 0 in
    let a1 = a ++ to_le_bytes 8 tag in
    let a2 = a1 ++ to_le_bytes 8 val in
    rw (room a Z c ao at) (
      ap (λ l. fill_aux aux (ao + 16) (write_word l (ao + 8) val))
        (write_word-first a (z ++ Z) c ao tag (sym at))
      ∙ ap (fill_aux aux (ao + 16))
          (write_word-first a1 Z c (ao + 8) val (omega (arith, length-snoc_word a tag)))
      ∙ fill_aux-words aux (ao + 16) a2 c
          (omega (arith, length-snoc_word a tag, length-snoc_word a1 val))
      ∙ ap ok (
          regroup a1 (to_le_bytes 8 val) (words (pairs aux)) c
          ∙ regroup a (to_le_bytes 8 tag) (to_le_bytes 8 val ++ words (pairs aux)) c))
