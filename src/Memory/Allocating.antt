-- ===== src/Memory/Allocating.antt =====
-- `allocate_frame_inner` finds the lowest free index and marks it.
use Prim.Native.Nat.{bit_or}
use native.Mathlib.Decide.{ℕ_discrete}
use rockos.Prelude.{
  ℕ, zero, suc, ◌+◌, ◌*◌, ◌/◌, ◌%◌, ◌^◌, ◌≤◌, ◌<◌, ◌≡◌, ◌≢◌, refl, sym, ap, true, false, Option,
  none, some, List, [], ◌∷◌, arith, length, get_or, set, All, leb, subst,
}
use rockos.Memory.{
  is_free, mark_used, complement, trailing_zeros, allocate_from, pass_over, frame_bitmap_bits,
  bitmap_bytes,
}
use rockos.Memory.Bits.{bit_clear, trailing_zeros_lowest, full_byte}
use rockos.Memory.Bitmap.{IsBitmap, IsByte}

lt→leb_false : {n m : ℕ} → n < m → leb m n ≡ false
lt→leb_false h = ground arith

-- The lowest free index, counted from the first bit of byte `i`, as byte `k` and bit `b`.
record Lowest (i : ℕ) (bytes : List ℕ) (frame_idx : ℕ) (after : List ℕ) : Type 0 where
  k : ℕ
  b : ℕ
  index : frame_idx ≡ (i + k) * 8 + b
  bit : b < 8
  inside : k < length bytes
  free : bit_clear (get_or bytes k 0xff) b ≡ true
  written : after ≡ set bytes k (bit_or (get_or bytes k 0xff) (2 ^ b))
  lower :
      (k' b' : ℕ) → b' < 8 → k' * 8 + b' < k * 8 + b → bit_clear (get_or bytes k' 0xff) b' ≡ false

abbrev Outcome : ℕ → List ℕ → Option (ℕ × List ℕ) → Type 0
Outcome i bytes none = (k b : ℕ) → b < 8 → bit_clear (get_or bytes k 0xff) b ≡ false
Outcome i bytes (some (frame_idx, after)) = Lowest i bytes frame_idx after

-- A byte without a clear bit in front.
pass_over-Outcome :
    (i byte : ℕ) (bytes : List ℕ) (o : Option (ℕ × List ℕ))
    → ((b : ℕ) → b < 8 → bit_clear byte b ≡ false)
    → Outcome (i + 1) bytes o
    → Outcome i (byte ∷ bytes) (pass_over byte o)
unfolding pass_over
pass_over-Outcome i byte bytes none full out = go
  where
    go : (k b : ℕ) → b < 8 → bit_clear (get_or (byte ∷ bytes) k 0xff) b ≡ false
    go zero b hb = full b hb
    go (suc k) b hb = out k b hb
pass_over-Outcome i byte bytes (some (frame_idx, after)) full out = record {
  k = suc out.k;
  b = out.b;
  index = omega (arith, out.index);
  bit = out.bit;
  inside = omega (arith, out.inside);
  free = out.free;
  written = ap (λ l. byte ∷ l) out.written;
  lower = go;
}
  where
    go :
        (k' b' : ℕ)
        → b' < 8
        → k' * 8 + b' < suc out.k * 8 + out.b
        → bit_clear (get_or (byte ∷ bytes) k' 0xff) b' ≡ false
    go zero b' hb h = full b' hb
    go (suc k') b' hb h = out.lower k' b' hb (omega arith)

module _ (i byte : ℕ) (bytes : List ℕ) where
  abbrev bit : ℕ
  bit = trailing_zeros (complement byte)

  found-Lowest :
      IsByte byte
      → byte ≢ 0xff
      → Lowest i (byte ∷ bytes) (i * 8 + bit) (bit_or byte (2 ^ bit) ∷ bytes)
  found-Lowest is_byte ne = record {
    k = 0;
    b = bit;
    index = omega arith;
    bit = (trailing_zeros_lowest byte 0 is_byte ne (omega arith)).0;
    inside = omega arith;
    free = (trailing_zeros_lowest byte 0 is_byte ne (omega arith)).1;
    written = refl;
    lower = lower_used;
  }
    where
      lower_used :
          (k' b' : ℕ)
          → b' < 8
          → k' * 8 + b' < 0 * 8 + bit
          → bit_clear (get_or (byte ∷ bytes) k' 0xff) b' ≡ false
      lower_used zero b' hb h = (trailing_zeros_lowest byte b' is_byte ne hb).2 (omega arith)
      lower_used (suc k') b' hb h =
          absurd (omega (arith, (trailing_zeros_lowest byte 0 is_byte ne (omega arith)).0))

  -- A byte with a clear bit ends the search.
  allocate_from-found :
      IsByte byte
      → byte ≢ 0xff
      → i < bitmap_bytes
      → allocate_from i (byte ∷ bytes) ≡ some (i * 8 + bit, bit_or byte (2 ^ bit) ∷ bytes)
  unfolding allocate_from
  allocate_from-found is_byte ne h =
      ground (arith, trailing_zeros_lowest byte 0 is_byte ne (omega arith))

  -- A byte without one is passed over.
  allocate_from-full :
      byte ≡ 0xff → allocate_from i (byte ∷ bytes) ≡ pass_over byte (allocate_from (i + 1) bytes)
  unfolding allocate_from
  allocate_from-full e = ground arith

allocate_from-Outcome :
    (i : ℕ) (bytes : List ℕ)
    → All IsByte bytes
    → i + length bytes ≤ bitmap_bytes
    → Outcome i bytes (allocate_from i bytes)
unfolding allocate_from
allocate_from-Outcome i [] all h = λ k b hb. full_byte 255 b refl hb
allocate_from-Outcome i (byte ∷ bytes) all h =
    step (ℕ_discrete byte 0xff) (allocate_from-Outcome (i + 1) bytes all.1 (omega arith))
  where
    step :
        Dec (byte ≡ 0xff)
        → Outcome (i + 1) bytes (allocate_from (i + 1) bytes)
        → Outcome i (byte ∷ bytes) (allocate_from i (byte ∷ bytes))
    step (yes full) ih =
        subst (Outcome i (byte ∷ bytes)) (sym (allocate_from-full i byte bytes full)) (
          pass_over-Outcome i byte bytes (allocate_from (i + 1) bytes)
            (λ b hb. full_byte byte b full hb) ih)
    step (no ne) ih =
        subst (Outcome i (byte ∷ bytes))
          (sym (allocate_from-found i byte bytes all.0 ne (omega arith)))
          (found-Lowest i byte bytes all.0 ne)

-- The same at the bitmap: the index is free, below all other free ones, and gets marked.
pub record Takes (bitmap : List ℕ) (idx : ℕ) (after : List ℕ) : Type 0 where
  pub inside : idx < frame_bitmap_bits
  pub free : is_free bitmap idx ≡ true
  pub marked : after ≡ mark_used bitmap idx
  pub lower : (j : ℕ) → j < idx → is_free bitmap j ≡ false

Lowest-Takes :
    (bitmap : List ℕ) (idx : ℕ) (after : List ℕ)
    → length bitmap ≡ bitmap_bytes
    → Lowest 0 bitmap idx after
    → Takes bitmap idx after
unfolding is_free mark_used
Lowest-Takes bitmap idx after size found =
    let byte : idx / 8 ≡ found.k = omega (arith, found.index, found.bit) in
    let place : idx % 8 ≡ found.b = omega (arith, found.index, found.bit) in
    let within : leb frame_bitmap_bits idx ≡ false =
      lt→leb_false (omega (arith, found.index, found.bit, found.inside)) in
    record {
      inside = omega (arith, found.index, found.bit, found.inside);
      free = rw (byte, place) found.free;
      marked = rw (within, byte, place) found.written;
      lower = λ j hj. found.lower (j / 8) (j % 8) (omega arith) (omega (arith, found.index));
    }

abbrev pub Allocated : List ℕ → Option (ℕ × List ℕ) → Type 0
Allocated bitmap none = (j : ℕ) → is_free bitmap j ≡ false
Allocated bitmap (some (idx, after)) = Takes bitmap idx after

pub allocate_from-Allocated :
    (bitmap : List ℕ) → IsBitmap bitmap → Allocated bitmap (allocate_from 0 bitmap)
unfolding is_free
allocate_from-Allocated bitmap v =
    to_bitmap (allocate_from 0 bitmap)
      (allocate_from-Outcome 0 bitmap v.bytes (omega (arith, v.size)))
  where
    to_bitmap : (o : Option (ℕ × List ℕ)) → Outcome 0 bitmap o → Allocated bitmap o
    to_bitmap none out = λ j. out (j / 8) (j % 8) (omega arith)
    to_bitmap (some (idx, after)) out = Lowest-Takes bitmap idx after v.size out
