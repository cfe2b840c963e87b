-- ===== src/Text/Runes.antt =====
-- `utf8.RuneCountInString`: a valid sequence is one rune, and so is each byte outside of one.
use masonic_core.Prelude.{
  ℕ, zero, suc, ◌≤◌, Bool, ◌&&◌, ◌||◌, List, [], ◌∷◌, arith, ◌==◌, leb, if◌then◌else◌, length,
}

continuation : ℕ → Bool
continuation b = leb 0x80 b && leb b 0xBF

-- The second byte after a lead byte, with overlong forms, surrogates and runes past U+10FFFF out.
second : ℕ → ℕ → Bool
unfolding continuation
second a b =
    continuation b
    && ((leb 0xC2 a && leb a 0xDF)
        || (a == 0xE0 && leb 0xA0 b)
        || (leb 0xE1 a && leb a 0xEC)
        || (a == 0xED && leb b 0x9F)
        || (leb 0xEE a && leb a 0xEF)
        || (a == 0xF0 && leb 0x90 b)
        || (leb 0xF1 a && leb a 0xF3)
        || (a == 0xF4 && leb b 0x8F))

-- The width of the rune at the head less one: how many more bytes it takes.
pub rune_tail : List ℕ → ℕ
unfolding second continuation
rune_tail [] = 0
rune_tail (a ∷ []) = 0
rune_tail (a ∷ b ∷ []) = if second a b && leb a 0xDF then 1 else 0
rune_tail (a ∷ b ∷ c ∷ []) =
    if second a b && leb a 0xDF
    then 1
    else if second a b && leb a 0xEF && continuation c
    then 2
    else 0
rune_tail (a ∷ b ∷ c ∷ d ∷ s) =
    if second a b && leb a 0xDF
    then 1
    else if second a b && leb a 0xEF && continuation c
    then 2
    else if second a b && continuation c && continuation d
    then 3
    else 0

pub count_from : ℕ → List ℕ → ℕ
unfolding rune_tail
count_from n [] = 0
count_from (suc n) (a ∷ s) = count_from n s
count_from zero (a ∷ s) = suc (count_from (rune_tail (a ∷ s)) s)

unfoldable pub rune_count : List ℕ → ℕ
unfolding count_from
rune_count s = count_from 0 s

count_from-le-length : (n : ℕ) (s : List ℕ) → count_from n s ≤ length s
unfolding count_from
count_from-le-length n [] = omega arith
count_from-le-length (suc n) (a ∷ s) = omega (arith, count_from-le-length n s)
count_from-le-length zero (a ∷ s) = omega (arith, count_from-le-length (rune_tail (a ∷ s)) s)

-- A text has no more runes than bytes.
pub rune_count-le-length : (s : List ℕ) → rune_count s ≤ length s
unfolding rune_count
rune_count-le-length s = count_from-le-length 0 s
