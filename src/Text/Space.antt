-- ===== src/Text/Space.antt =====
-- `strings.TrimSpace`, by bytes: a white-space rune of one, two or three bytes goes at each end.
use masonic_core.Prelude.{
  ℕ, zero, suc, Bool, ◌&&◌, ◌||◌, List, [], ◌∷◌, reverse, ◌==◌, leb, if◌then◌else◌,
}

one_byte : ℕ → Bool
one_byte a = leb 9 a && leb a 13 || a == 32

two_bytes : ℕ → ℕ → Bool
two_bytes a b = a == 0xC2 && (b == 0x85 || b == 0xA0)

-- U+1680, U+2000 to U+200A, U+2028, U+2029, U+202F, U+205F and U+3000.
three_bytes : ℕ → ℕ → ℕ → Bool
three_bytes a b c =
    a == 0xE1 && (b == 0x9A && c == 0x80)
    || (a == 0xE2
          && (b == 0x80 && (leb 0x80 c && leb c 0x8A || (c == 0xA8 || (c == 0xA9 || c == 0xAF)))
              || b == 0x81 && c == 0x9F)
        || a == 0xE3 && (b == 0x80 && c == 0x80))

-- The width of the white-space rune at the head, 0 if there is none.
unfoldable pub space_width : List ℕ → ℕ
unfolding one_byte two_bytes three_bytes
space_width [] = 0
space_width (a ∷ []) = if one_byte a then 1 else 0
space_width (a ∷ b ∷ []) = if one_byte a then 1 else if two_bytes a b then 2 else 0
space_width (a ∷ b ∷ c ∷ s) =
    if one_byte a then 1 else if two_bytes a b then 2 else if three_bytes a b c then 3 else 0

-- The same for the rune that a reversed text begins with.
unfoldable pub space_width_back : List ℕ → ℕ
unfolding one_byte two_bytes three_bytes
space_width_back [] = 0
space_width_back (a ∷ []) = if one_byte a then 1 else 0
space_width_back (a ∷ b ∷ []) = if one_byte a then 1 else if two_bytes b a then 2 else 0
space_width_back (a ∷ b ∷ c ∷ s) =
    if one_byte a then 1 else if two_bytes b a then 2 else if three_bytes c b a then 3 else 0

-- Drops runes of the width that `width` reports; the counter says how many bytes of one are left.
pub drop_runes : (List ℕ → ℕ) → ℕ → List ℕ → List ℕ
drop_runes width n [] = []
drop_runes width (suc n) (a ∷ s) = drop_runes width n s
drop_runes width zero (a ∷ s) = elim (width (a ∷ s)) [ zero ↦ a ∷ s | suc w ↦ drop_runes width w s ]

unfoldable pub trim_left : List ℕ → List ℕ
unfolding drop_runes space_width
trim_left s = drop_runes space_width 0 s

unfoldable pub trim_right : List ℕ → List ℕ
unfolding drop_runes space_width_back
trim_right s = reverse (drop_runes space_width_back 0 (reverse s))

-- TrimSpace
unfoldable pub trim_space : List ℕ → List ℕ
unfolding trim_left trim_right
trim_space s = trim_right (trim_left s)
