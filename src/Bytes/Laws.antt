-- ===== src/Bytes/Laws.antt =====
-- Writing a word and reading it back.
use native.Mathlib.Nat.{pow-suc}
use rockos.Prelude.{
  ℕ, zero, suc, ◌*◌, ◌/◌, ◌^◌, ◌<◌, ◌≡◌, refl, ap, List, [], ◌∷◌, arith, length, length-append,
}
use rockos.Bytes.{to_le_bytes, from_le_bytes, words}

pub length-to_le_bytes : (n w : ℕ) → length (to_le_bytes n w) ≡ n
unfolding to_le_bytes
length-to_le_bytes zero w = refl
length-to_le_bytes (suc n) w = ap suc (length-to_le_bytes n (w / 256))

pub length-words : (ws : List ℕ) → length (words ws) ≡ 8 * length ws
unfolding words
length-words [] = omega arith
length-words (w ∷ ws) =
    omega
      (arith, length-append (to_le_bytes 8 w) (words ws), length-to_le_bytes 8 w, length-words ws)

pub from_le_bytes-to_le_bytes : (n w : ℕ) → w < 256 ^ n → from_le_bytes (to_le_bytes n w) ≡ w
unfolding to_le_bytes from_le_bytes
from_le_bytes-to_le_bytes zero w h = omega arith
from_le_bytes-to_le_bytes (suc n) w h =
    let small : w / 256 < 256 ^ n = omega (arith, pow-suc 256 n) in
    omega (arith, from_le_bytes-to_le_bytes n (w / 256) small)
