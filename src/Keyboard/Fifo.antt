-- ===== src/Keyboard/Fifo.antt =====
-- What the ring of scan codes promises: a queue of at most 255 bytes, oldest first.
use rockos.Prelude.{
  ℕ, Bool, true, false, Option, none, some, List, [], ◌∷◌, ◌++◌, length, ltb, if◌then◌else◌,
}

abbrev pub capacity : ℕ
capacity = 255

unfoldable pub push : List ℕ → ℕ → Bool × List ℕ
push l b = if ltb (length l) capacity then (true, l ++ b ∷ []) else (false, l)

unfoldable pub pop : List ℕ → Option ℕ × List ℕ
pop [] = (none, [])
pop (x ∷ l) = (some x, l)
