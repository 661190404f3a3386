-- ===== src/Memory/Counting.antt =====
-- How the number of free indices changes with one of them.
use rockos.Prelude.{
  ℕ, zero, suc, ◌+◌, ◌≤◌, ◌<◌, ◌≡◌, refl, true, false, List, arith, ◌==◌, ltb, if◌then◌else◌,
}
use rockos.Memory.{is_free, count_free_below, count_free, frame_bitmap_bits}

-- One index goes from free to used, below `n` or not.
count_free_below-take :
    (before after : List ℕ) (i n : ℕ)
    → ((j : ℕ) → is_free after j ≡ (if i == j then false else is_free before j))
    → is_free before i ≡ true
    → count_free_below before n ≡ count_free_below after n + (if ltb i n then 1 else 0)
unfolding count_free_below
count_free_below-take before after i zero h f = ground arith
count_free_below-take before after i (suc n) h f =
    ground (arith, count_free_below-take before after i n h f, h n)

pub count_free-take :
    (before after : List ℕ) (i : ℕ)
    → i < frame_bitmap_bits
    → ((j : ℕ) → is_free after j ≡ (if i == j then false else is_free before j))
    → is_free before i ≡ true
    → count_free before ≡ count_free after + 1
unfolding count_free
count_free-take before after i inside h f =
    ground (arith, count_free_below-take before after i frame_bitmap_bits h f)

pub count_free_below-le : (bitmap : List ℕ) (n : ℕ) → count_free_below bitmap n ≤ n
unfolding count_free_below
count_free_below-le bitmap zero = omega arith
count_free_below-le bitmap (suc n) = ground (arith, count_free_below-le bitmap n)

-- No index below `n` is free exactly when the count is zero.
pub count_free_below_none :
    (bitmap : List ℕ) (n : ℕ)
    → ((j : ℕ) → j < n → is_free bitmap j ≡ false)
    → count_free_below bitmap n ≡ 0
unfolding count_free_below
count_free_below_none bitmap zero h = refl
count_free_below_none bitmap (suc n) h =
    ground (arith, count_free_below_none bitmap n (λ j hj. h j (omega arith)), h n (omega arith))

pub count_free-le : (bitmap : List ℕ) → count_free bitmap ≤ frame_bitmap_bits
unfolding count_free
count_free-le bitmap = count_free_below-le bitmap frame_bitmap_bits

pub count_free_none :
    (bitmap : List ℕ) → ((j : ℕ) → is_free bitmap j ≡ false) → count_free bitmap ≡ 0
unfolding count_free
count_free_none bitmap h = count_free_below_none bitmap frame_bitmap_bits (λ j hj. h j)
