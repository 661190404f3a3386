-- ===== src/Memory/Bitmap.antt =====
-- The bitmap as the set of its free indices: what marking one index does to every index.
use Prim.Native.Nat.{bit_and, bit_or}
use rockos.Prelude.{
  ℕ, zero, suc, ◌/◌, ◌%◌, ◌^◌, ◌<◌, ◌≡◌, sym, ◌∙◌, Bool, true, false, List, [], ◌∷◌, arith, length,
  get_or, set, length-set, get_or-set_self, get_or-set_ne, get_or_outside, All, leb, ◌==◌,
  if◌then◌else◌, Bool-cases, inl, inr,
}
use rockos.Memory.{mark_free, mark_used, is_free, complement, frame_bitmap_bits, bitmap_bytes}
use rockos.Memory.Bits.{bit_clear, bit_or-clear, bit_and-clear, bit_ops-lt, full_byte}

abbrev pub IsByte : ℕ → Type 0
IsByte b = b < 256

-- 8192 bytes.
pub record IsBitmap (bitmap : List ℕ) : Type 0 where
  pub size : length bitmap ≡ bitmap_bytes
  pub bytes : All IsByte bitmap

pub All-set : (xs : List ℕ) (i v : ℕ) → All IsByte xs → IsByte v → All IsByte (set xs i v)
All-set [] i v h hv = tt
All-set (x ∷ xs) zero v h hv = (hv, h.1)
All-set (x ∷ xs) (suc i) v h hv = (h.0, All-set xs i v h.1 hv)

pub All-get_or : (xs : List ℕ) (i : ℕ) → All IsByte xs → IsByte (get_or xs i 0xff)
All-get_or [] i h = omega arith
All-get_or (x ∷ xs) zero h = h.0
All-get_or (x ∷ xs) (suc i) h = All-get_or xs i h.1

-- A write of the byte that holds index `i`, seen at index `j`.
is_free-set :
    (bitmap : List ℕ) (i j v : ℕ) (at_i : Bool)
    → i / 8 < length bitmap
    → ((k : ℕ)
        → k < 8
        → bit_clear v k ≡ (if i % 8 == k then at_i else bit_clear (get_or bitmap (i / 8) 0xff) k))
    → is_free (set bitmap (i / 8) v) j ≡ (if i == j then at_i else is_free bitmap j)
unfolding is_free
is_free-set bitmap i j v at_i inside bits = elim (Bool-cases (i / 8 == j / 8)) [
  | inl here ↦
      let e : i / 8 ≡ j / 8 = ground arith in
      rw (← e, get_or-set_self bitmap (i / 8) v 0xff inside, bits (j % 8) (omega arith))
        (ground arith)
  | inr other ↦ rw (get_or-set_ne bitmap (i / 8) (j / 8) v 0xff (ground arith)) (ground arith)
]

true-ne-false : ◌≡◌ {A = Bool} true false → ⊥
true-ne-false e = cc

module _ (bitmap : List ℕ) (i : ℕ) (v : IsBitmap bitmap) where
  abbrev old : ℕ
  old = get_or bitmap (i / 8) 0xff

  old-IsByte : IsByte old
  old-IsByte = All-get_or bitmap (i / 8) v.bytes

  pub mark_used-IsBitmap : IsBitmap (mark_used bitmap i)
  unfolding mark_used
  mark_used-IsBitmap = elim (Bool-cases (leb frame_bitmap_bits i)) [
    | inl outside ↦ rw outside v
    | inr inside ↦ rw inside (record {
      size = length-set bitmap (i / 8) (bit_or old (2 ^ (i % 8))) ∙ v.size;
      bytes =
          All-set bitmap (i / 8) (bit_or old (2 ^ (i % 8))) v.bytes
            (bit_ops-lt old (i % 8) old-IsByte (omega arith)).0;
    })
  ]

  pub mark_free-IsBitmap : IsBitmap (mark_free bitmap i)
  unfolding mark_free
  mark_free-IsBitmap = elim (Bool-cases (leb frame_bitmap_bits i)) [
    | inl outside ↦ rw outside v
    | inr inside ↦ rw inside (record {
      size = length-set bitmap (i / 8) (bit_and old (complement (2 ^ (i % 8)))) ∙ v.size;
      bytes =
          All-set bitmap (i / 8) (bit_and old (complement (2 ^ (i % 8)))) v.bytes
            (bit_ops-lt old (i % 8) old-IsByte (omega arith)).1;
    })
  ]

  pub is_free-mark_used :
      (j : ℕ)
      → i < frame_bitmap_bits
      → is_free (mark_used bitmap i) j ≡ (if i == j then false else is_free bitmap j)
  unfolding mark_used
  is_free-mark_used j h =
      let inside : leb frame_bitmap_bits i ≡ false = ground arith in
      rw inside (
        is_free-set bitmap i j (bit_or old (2 ^ (i % 8))) false (omega (arith, v.size))
          (λ k hk. bit_or-clear old (i % 8) k old-IsByte (omega arith) hk))

  pub is_free-mark_free :
      (j : ℕ)
      → i < frame_bitmap_bits
      → is_free (mark_free bitmap i) j ≡ (if i == j then true else is_free bitmap j)
  unfolding mark_free
  is_free-mark_free j h =
      let inside : leb frame_bitmap_bits i ≡ false = ground arith in
      rw inside (
        is_free-set bitmap i j (bit_and old (complement (2 ^ (i % 8)))) true (omega (arith, v.size))
          (λ k hk. bit_and-clear old (i % 8) k old-IsByte (omega arith) hk))

  -- An index past the end is not free.
  pub is_free-lt : is_free bitmap i ≡ true → i < frame_bitmap_bits
  unfolding is_free
  is_free-lt h = elim (Bool-cases (leb frame_bitmap_bits i)) [
    | inl outside ↦
        let e = get_or_outside bitmap (i / 8) 0xff (ground (arith, v.size)) in
        absurd (true-ne-false (sym h ∙ full_byte old (i % 8) e (omega arith)))
    | inr inside ↦ ground arith
  ]
