-- ===== src/Fs/Utf8.antt =====
-- The check of `core::str::from_utf8`.
use rockos.Prelude.{ℕ, zero, suc, Bool, false, ◌&&◌, List, [], ◌∷◌, ltb, leb, ◌==◌, if◌then◌else◌}

abbrev within : ℕ → ℕ → ℕ → Bool
within lo hi b = leb lo b && leb b hi

-- `need` continuation bytes are due; the next one lies between `lo` and `hi`.
unfoldable pub utf8_from : (need lo hi : ℕ) → List ℕ → Bool
utf8_from need lo hi [] = need == 0
utf8_from zero lo hi (b ∷ l) =
    let plain = utf8_from 0 0 0 l in
    let two = utf8_from 1 0x80 0xbf l in
    let three_e0 = utf8_from 2 0xa0 0xbf l in
    let three_ed = utf8_from 2 0x80 0x9f l in
    let three = utf8_from 2 0x80 0xbf l in
    let four_f0 = utf8_from 3 0x90 0xbf l in
    let four_f4 = utf8_from 3 0x80 0x8f l in
    let four = utf8_from 3 0x80 0xbf l in
    if ltb b 0x80
    then plain
    else if within 0xc2 0xdf b
    then two
    else if b == 0xe0
    then three_e0
    else if b == 0xed
    then three_ed
    else if within 0xe1 0xef b
    then three
    else if b == 0xf0
    then four_f0
    else if within 0xf1 0xf3 b
    then four
    else if b == 0xf4
    then four_f4
    else false
utf8_from (suc need) lo hi (b ∷ l) =
    let rest = utf8_from need 0x80 0xbf l in if within lo hi b then rest else false

unfoldable pub is_utf8 : List ℕ → Bool
unfolding utf8_from
is_utf8 l = utf8_from 0 0 0 l
