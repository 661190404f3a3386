-- ===== src/Serial/Hex.antt =====
-- The digits against the number they stand for.
use native.Mathlib.Nat.{pow-suc}
use rockos.Prelude.{
  ℕ, zero, suc, ◌+◌, ◌*◌, ◌-◌, ◌/◌, ◌%◌, ◌^◌, ◌≤◌, ◌<◌, ◌≡◌, ◌∙◌, refl, ap, Bool, true, false, ◌&&◌,
  Option, none, some, List, [], ◌∷◌, arith, length, leb, ◌==◌, if◌then◌else◌, holds_below,
  holds_below_sound, Bool-cases, inl, inr,
}
use rockos.Serial.{digit, hex_loop, debug_hex_u64}

-- The value of a hexadecimal digit, 0 to 9 or a to f; none for any other byte.
unfoldable pub from_digit : ℕ → Option ℕ
from_digit c =
    if leb b'0' c && leb c b'9'
    then some (c - b'0')
    else if leb b'a' c && leb c b'f'
    then some (c - b'a' + 10)
    else none

-- The number that digits stand for, behind a number `acc`.
unfoldable pub from_hex : (acc : ℕ) → List ℕ → Option ℕ
unfolding from_digit
from_hex acc [] = some acc
from_hex acc (c ∷ cs) = elim (from_digit c) [ none ↦ none | some d ↦ from_hex (acc * 16 + d) cs ]

-- One digit or more.
unfoldable pub parse_digits : List ℕ → Option ℕ
parse_digits [] = none
parse_digits (c ∷ cs) = from_hex 0 (c ∷ cs)

-- The bytes 0x and one digit or more; none for anything else.
unfoldable pub parse_hex : List ℕ → Option ℕ
parse_hex (a ∷ b ∷ cs) = if a == b'0' && b == b'x' then parse_digits cs else none
parse_hex (a ∷ []) = none
parse_hex [] = none

abbrev is_value : ℕ → Option ℕ → Bool
is_value d none = false
is_value d (some e) = e == d

is_value_sound : (d : ℕ) (o : Option ℕ) → is_value d o ≡ true → o ≡ some d
is_value_sound d none h = cc
is_value_sound d (some e) h = ap some (ground (arith, h))

digit_table : holds_below 16 (λ d. is_value d (from_digit (digit d))) ≡ true
unfolding holds_below from_digit digit
digit_table = refl

from_digit-digit : (d : ℕ) → d < 16 → from_digit (digit d) ≡ some d
from_digit-digit d h =
    is_value_sound d (from_digit (digit d))
      (holds_below_sound 16 (λ k. is_value k (from_digit (digit k))) d digit_table h)

from_hex-digit : (v : ℕ) (buf : List ℕ) → from_hex (v / 16) (digit (v % 16) ∷ buf) ≡ from_hex v buf
unfolding from_hex
from_hex-digit v buf =
    ap (λ o. elim o [ none ↦ none | some d ↦ from_hex (v / 16 * 16 + d) buf ])
      (from_digit-digit (v % 16) (omega arith))
    ∙ ap (λ k. from_hex k buf) (omega arith)

from_hex-hex_loop :
    (room v : ℕ) (buf : List ℕ) → v < 16 ^ room → from_hex 0 (hex_loop room v buf) ≡ from_hex v buf
unfolding hex_loop
from_hex-hex_loop zero v buf h = ap (λ k. from_hex k buf) (omega arith)
from_hex-hex_loop (suc room) v buf h = elim (Bool-cases (v == 0)) [
  | inl done ↦ rw done (let e : 0 ≡ v = ground arith in ap (λ k. from_hex k buf) e)
  | inr more ↦ rw more (
      from_hex-hex_loop room (v / 16) (digit (v % 16) ∷ buf) (omega (arith, pow-suc 16 room))
      ∙ from_hex-digit v buf)
]

from_hex-some : (n : ℕ) → n < 2 ^ 64 → from_hex 0 (hex_loop 16 n []) ≡ some n
unfolding from_hex
from_hex-some n h = from_hex-hex_loop 16 n [] h

parse_digits-from_hex :
    (n : ℕ) (l : List ℕ) → 0 < n → from_hex 0 l ≡ some n → parse_digits l ≡ some n
unfolding parse_digits from_hex
parse_digits-from_hex n [] pos h = let e : 0 ≡ n = cc in absurd (omega (arith, e))
parse_digits-from_hex n (c ∷ cs) pos h = h

parse_digits-choice :
    (n : ℕ) (l : List ℕ)
    → from_hex 0 l ≡ some n
    → parse_digits (if n == 0 then b'0' ∷ [] else l) ≡ some n
unfolding parse_digits from_hex from_digit
parse_digits-choice zero l h = refl
parse_digits-choice (suc n) l h =
    let e : (suc n == 0) ≡ false = ground arith in
    rw e (parse_digits-from_hex (suc n) l (omega arith) h)

length-hex_loop : (room v : ℕ) (buf : List ℕ) → length (hex_loop room v buf) ≤ room + length buf
unfolding hex_loop
length-hex_loop zero v buf = omega arith
length-hex_loop (suc room) v buf =
    ground (arith, length-hex_loop room (v / 16) (digit (v % 16) ∷ buf))

length-choice : (b : Bool) (l : List ℕ) → length l ≤ 16 → length (if b then b'0' ∷ [] else l) ≤ 16
length-choice true l h = omega arith
length-choice false l h = h

-- Every 64-bit number is printed as the bytes 0x and between 1 and 16 hexadecimal digits, 0 to 9 and
-- a to f, which stand for the number.
pub debug_hex_u64_lem :
    (n : ℕ) → n < 2 ^ 64 → (parse_hex (debug_hex_u64 n) ≡ some n) × (length (debug_hex_u64 n) ≤ 18)
unfolding debug_hex_u64 parse_hex
debug_hex_u64_lem n h =
    let digits = hex_loop 16 n [] in
    (
      parse_digits-choice n digits (from_hex-some n h),
      omega (arith, length-choice (n == 0) digits (length-hex_loop 16 n [])),
    )
