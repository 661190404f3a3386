-- ===== src/Memory/Bits.antt =====
-- Facts about the bits of a byte, by evaluation over all bytes and bits.
use Prim.Native.Nat.{bit_and, bit_or}
use rockos.Prelude.{
  ℕ, ◌^◌, ◌<◌, ◌≡◌, refl, Bool, true, false, not, ◌&&◌, arith, ltb, ltb→lt, ◌≢◌, ◌==◌,
  if◌then◌else◌, holds_below, holds_below_sound,
}
use rockos.Memory.{complement, trailing_zeros}

abbrev pub bit_clear : ℕ → ℕ → Bool
bit_clear b j = bit_and b (2 ^ j) == 0

abbrev same : Bool → Bool → Bool
same true y = y
same false y = not y

same_eq : (x y : Bool) → same x y ≡ true → x ≡ y
same_eq x y h = ground arith

and_left : (x y : Bool) → (x && y) ≡ true → x ≡ true
and_left x y h = ground arith

and_right : (x y : Bool) → (x && y) ≡ true → y ≡ true
and_right x y h = ground arith

abbrev set_test : ℕ → ℕ → ℕ → Bool
set_test b i j =
    same (bit_clear (bit_or b (2 ^ i)) j) (if i == j then false else bit_clear b j)
    && same (bit_clear (bit_and b (complement (2 ^ i))) j) (if i == j then true else bit_clear b j)

set_table : holds_below 256 (λ b. holds_below 8 (λ i. holds_below 8 (λ j. set_test b i j))) ≡ true
unfolding holds_below
set_table = refl

set_test_holds : (b i j : ℕ) → b < 256 → i < 8 → j < 8 → set_test b i j ≡ true
set_test_holds b i j hb hi hj =
    holds_below_sound 8 (λ j. set_test b i j) j
      (holds_below_sound 8 (λ i. holds_below 8 (λ j. set_test b i j)) i
        (holds_below_sound 256 (λ b. holds_below 8 (λ i. holds_below 8 (λ j. set_test b i j))) b
          set_table hb)
        hi)
      hj

-- `|= 1 << i` sets bit `i` alone.
pub bit_or-clear :
    (b i j : ℕ)
    → b < 256
    → i < 8
    → j < 8
    → bit_clear (bit_or b (2 ^ i)) j ≡ (if i == j then false else bit_clear b j)
bit_or-clear b i j hb hi hj = same_eq _ _ (and_left _ _ (set_test_holds b i j hb hi hj))

-- `&= !(1 << i)` clears bit `i` alone.
pub bit_and-clear :
    (b i j : ℕ)
    → b < 256
    → i < 8
    → j < 8
    → bit_clear (bit_and b (complement (2 ^ i))) j ≡ (if i == j then true else bit_clear b j)
bit_and-clear b i j hb hi hj = same_eq _ _ (and_right _ _ (set_test_holds b i j hb hi hj))

byte_table :
    holds_below 256 (λ b.
      holds_below 8 (λ i. ltb (bit_or b (2 ^ i)) 256 && ltb (bit_and b (complement (2 ^ i))) 256))
    ≡ true
unfolding holds_below
byte_table = refl

-- Both keep a byte a byte.
pub bit_ops-lt :
    (b i : ℕ) → b < 256 → i < 8 → (bit_or b (2 ^ i) < 256) × (bit_and b (complement (2 ^ i)) < 256)
bit_ops-lt b i hb hi =
    let t =
      holds_below_sound 8
        (λ i. ltb (bit_or b (2 ^ i)) 256 && ltb (bit_and b (complement (2 ^ i))) 256) i
        (holds_below_sound 256
          (λ b.
            holds_below 8
              (λ i. ltb (bit_or b (2 ^ i)) 256 && ltb (bit_and b (complement (2 ^ i))) 256))
          b byte_table hb)
        hi in
    (ltb→lt _ _ (and_left _ _ t), ltb→lt _ _ (and_right _ _ t))

abbrev lowest_test : ℕ → ℕ → Bool
lowest_test b j =
    let t = trailing_zeros (complement b) in
    if b == 255
    then not (bit_clear b j)
    else ltb t 8 && bit_clear b t && (if ltb j t then not (bit_clear b j) else true)

lowest_table : holds_below 256 (λ b. holds_below 8 (λ j. lowest_test b j)) ≡ true
unfolding holds_below trailing_zeros
lowest_table = refl

lowest_holds : (b j : ℕ) → b < 256 → j < 8 → lowest_test b j ≡ true
lowest_holds b j hb hj =
    holds_below_sound 8 (λ j. lowest_test b j) j
      (holds_below_sound 256 (λ b. holds_below 8 (λ j. lowest_test b j)) b lowest_table hb) hj

-- In a byte with a clear bit the search finds the lowest one.
pub trailing_zeros_lowest :
    (b j : ℕ)
    → b < 256
    → b ≢ 255
    → j < 8
    → let t = trailing_zeros (complement b) in
      (t < 8) × (bit_clear b t ≡ true) × (j < t → bit_clear b j ≡ false)
trailing_zeros_lowest b j hb ne hj = ground (arith, lowest_holds b j hb hj)

-- The byte 255 has none.
pub full_byte : (b j : ℕ) → b ≡ 255 → j < 8 → bit_clear b j ≡ false
full_byte b j e hj = ground (arith, lowest_holds b j (omega arith) hj)
