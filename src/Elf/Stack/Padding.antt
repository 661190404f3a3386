-- ===== src/Elf/Stack/Padding.antt =====
-- What the padding loops append.
use mathlib.Core.List.{append_assoc, append-nil}
use rockos.Prelude.{
  ℕ, zero, suc, ◌+◌, ◌-◌, ◌%◌, ◌<◌, ◌≡◌, ◌∙◌, refl, sym, ap, ap₂, true, false, List, [], ◌∷◌, ◌++◌,
  arith, length, length-append, length-replicate, replicate, ltb, ◌==◌,
}
use rockos.Bytes.{to_le_bytes, words}
use rockos.User.{stack_lo}
use rockos.Elf.Stack.{extend_zeros, pad, push_until, push_strings, align_up}

-- From `d` places before the next multiple, `pad` appends `d` zeros.
pad-replicate :
    (fuel k d : ℕ) (v : List ℕ)
    → ((j : ℕ) → j < d → ((length v + j) % k == 0) ≡ false)
    → ((length v + d) % k == 0) ≡ true
    → d < fuel
    → pad fuel k v ≡ v ++ replicate d 0
unfolding pad
pad-replicate zero k d v before at fits = absurd (omega arith)
pad-replicate (suc fuel) k zero v before at fits =
    let now : (length v % k == 0) ≡ true = ap (λ n. n % k == 0) (omega arith) ∙ at in
    rw (now, pad) (sym (append-nil v))
pad-replicate (suc fuel) k (suc d) v before at fits =
    let now : (length v % k == 0) ≡ false =
      ap (λ n. n % k == 0) (omega arith) ∙ before 0 (omega arith) in
    let v' = v ++ 0 ∷ [] in
    let longer : length v' ≡ length v + 1 = length-append v (0 ∷ []) in
    rw (now, pad)
      (pad-replicate fuel k d v'
          (λ j h. ap (λ n. n % k == 0) (omega (arith, longer)) ∙ before (suc j) (omega arith))
          (ap (λ n. n % k == 0) (omega (arith, longer)) ∙ at) (omega arith)
        ∙ append_assoc v (0 ∷ []) (replicate d 0))

abbrev pub gap : (k n : ℕ) → ℕ
gap k n = (k - n % k) % k

pub pad8 : (v : List ℕ) → pad 8 8 v ≡ v ++ replicate (gap 8 (length v)) 0
pad8 v = pad-replicate 8 8 (gap 8 (length v)) v (λ j h. ground arith) (ground arith) (omega arith)

pub pad16 : (v : List ℕ) → pad 16 16 v ≡ v ++ replicate (gap 16 (length v)) 0
pad16 v =
    pad-replicate 16 16 (gap 16 (length v)) v (λ j h. ground arith) (ground arith) (omega arith)

-- Where the length is aligned already, `push_until` appends nothing.
pub push_until_aligned :
    (fuel : ℕ) (v : List ℕ) → length v % 16 ≡ 0 → push_until fuel (align_up (length v) 16) v ≡ v
unfolding push_until
push_until_aligned zero v aligned = refl
push_until_aligned (suc fuel) v aligned =
    let done : ltb (length v) (align_up (length v) 16) ≡ false = ground arith in
    rw (done, push_until) refl

pub extend_zeros-words : (n : ℕ) (v : List ℕ) → extend_zeros n v ≡ v ++ words (replicate n 0)
unfolding extend_zeros words
extend_zeros-words zero v = sym (append-nil v)
extend_zeros-words (suc n) v =
    extend_zeros-words n (v ++ to_le_bytes 8 0)
    ∙ append_assoc v (to_le_bytes 8 0) (words (replicate n 0))

-- A string on the stack: its bytes, a NUL, and zeros up to a multiple of eight.
abbrev pub cell : List ℕ → List ℕ
cell e = e ++ 0 ∷ replicate (gap 8 (length e + 1)) 0

unfoldable pub cells : List (List ℕ) → List ℕ
cells [] = []
cells (e ∷ es) = cell e ++ cells es

-- Where the strings stand, the first of them at `base`.
unfoldable pub pointers : (base : ℕ) → List (List ℕ) → List ℕ
pointers base [] = []
pointers base (e ∷ es) = base ∷ pointers (base + length (cell e)) es

pub length-cell : (e : List ℕ) → length (cell e) % 8 ≡ 0
length-cell e = omega (
  arith,
  length-append e (0 ∷ replicate (gap 8 (length e + 1)) 0),
  length-replicate {A = ℕ} (gap 8 (length e + 1)) 0,
)

pad-cell : (v e : List ℕ) → length v % 8 ≡ 0 → pad 8 8 (v ++ e ++ 0 ∷ []) ≡ v ++ cell e
pad-cell v e aligned =
    let w = v ++ e ++ 0 ∷ [] in
    let n = gap 8 (length e + 1) in
    let same : gap 8 (length w) ≡ n =
      omega (arith, length-append (v ++ e) (0 ∷ []), length-append v e) in
    pad8 w
    ∙ ap (λ k. w ++ replicate k 0) same
    ∙ append_assoc (v ++ e) (0 ∷ []) (replicate n 0)
    ∙ append_assoc v e (0 ∷ replicate n 0)

pub push_strings-cells :
    (es : List (List ℕ)) (v str_off : List ℕ)
    → length v % 8 ≡ 0
    → push_strings es (v, str_off) ≡ (v ++ cells es, str_off ++ pointers (stack_lo + length v) es)
unfolding push_strings cells pointers
push_strings-cells [] v str_off aligned =
    ap₂ (λ x y. (x, y)) (sym (append-nil v)) (sym (append-nil str_off))
push_strings-cells (e ∷ es) v str_off aligned =
    let base = stack_lo + length v in
    let v' = v ++ cell e in
    let longer : length v' ≡ length v + length (cell e) = length-append v (cell e) in
    ap (λ x. push_strings es (x, str_off ++ base ∷ [])) (pad-cell v e aligned)
    ∙ push_strings-cells es v' (str_off ++ base ∷ []) (omega (arith, longer, length-cell e))
    ∙ ap₂ (λ x y. (x, y)) (append_assoc v (cell e) (cells es))
        (ap (λ n. (str_off ++ base ∷ []) ++ pointers n es) (omega (arith, longer))
          ∙ append_assoc str_off (base ∷ []) (pointers (base + length (cell e)) es))
