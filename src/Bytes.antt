-- ===== src/Bytes.antt =====
-- `to_le_bytes` and `from_le_bytes` of the unsigned integers: `n` bytes, the lowest first.
pub mod Laws
use rockos.Prelude.{ℕ, zero, suc, ◌+◌, ◌*◌, ◌/◌, ◌%◌, List, [], ◌∷◌, ◌++◌}

unfoldable pub to_le_bytes : (n w : ℕ) → List ℕ
to_le_bytes zero w = []
to_le_bytes (suc n) w = w % 256 ∷ to_le_bytes n (w / 256)

unfoldable pub from_le_bytes : List ℕ → ℕ
from_le_bytes [] = 0
from_le_bytes (b ∷ bs) = b + 256 * from_le_bytes bs

-- Several 64-bit words in a row.
unfoldable pub words : List ℕ → List ℕ
words [] = []
words (w ∷ ws) = to_le_bytes 8 w ++ words ws
