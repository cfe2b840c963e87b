-- ===== src/Text.antt =====
-- Go strings as lists of bytes, with the functions of Go's `strings`, `unicode/utf8` and `regexp`
-- packages that the services call.
pub mod Space
pub mod Runes
pub mod Regex
pub mod Paths
pub mod HostPort
use Prim.Native.Char.{code}
use Prim.Native.String.{String}
use masonic_core.Prelude.{
  ℕ, zero, suc, ◌+◌, ◌-◌, ◌≡◌, refl, ◌↔◌, Bool, true, false, ◌&&◌, ◌||◌, List, [], ◌∷◌, ◌++◌, map,
  arith, ◌==◌, ==_iff, leb, if◌then◌else◌, Bool-cases,
}

abbrev pub Text : Type 0
Text = List ℕ

-- The bytes of an ASCII literal.
abbrev pub text : String → Text
text String.[] = []
text (String.◌∷◌ c s) = code c ∷ text s

-- `a == b` on strings.
unfoldable pub text_eq : Text → Text → Bool
text_eq [] [] = true
text_eq [] (b ∷ t) = false
text_eq (a ∷ s) [] = false
text_eq (a ∷ s) (b ∷ t) = (a == b) && text_eq s t

pub text_eq_refl : (s : Text) → text_eq s s ≡ true
unfolding text_eq
text_eq_refl [] = refl
text_eq_refl (a ∷ s) = ground (arith, text_eq_refl s)

pub eq_of_text_eq : (s t : Text) → text_eq s t ≡ true → s ≡ t
unfolding text_eq
eq_of_text_eq [] [] h = refl
eq_of_text_eq [] (b ∷ t) h = cc
eq_of_text_eq (a ∷ s) [] h = cc
eq_of_text_eq (a ∷ s) (b ∷ t) h = ground (arith, eq_of_text_eq s t)

pub text_eq_iff : (s t : Text) → (text_eq s t ≡ true) ↔ (s ≡ t)
text_eq_iff s t = (eq_of_text_eq s t, λ e. rw e (text_eq_refl t))

lower_byte : ℕ → ℕ
lower_byte b = if leb b'A' b && leb b b'Z' then b + 32 else b

-- The two runes past ASCII whose lower case is ASCII: U+0130 to `i`, U+212A to `k`. The byte that
-- replaces the head, and how many more bytes the rune had.
lower_rune : Text → ℕ × ℕ
unfolding lower_byte
lower_rune [] = (0, 0)
lower_rune (a ∷ []) = (lower_byte a, 0)
lower_rune (a ∷ b ∷ []) = if a == 0xC4 && b == 0xB0 then (b'i', 1) else (lower_byte a, 0)
lower_rune (a ∷ b ∷ c ∷ s) =
    if a == 0xC4 && b == 0xB0
    then (b'i', 1)
    else if a == 0xE2 && (b == 0x84 && c == 0xAA)
    then (b'k', 2)
    else (lower_byte a, 0)

lower_from : ℕ → Text → Text
unfolding lower_rune
lower_from n [] = []
lower_from (suc n) (a ∷ s) = lower_from n s
lower_from zero (a ∷ s) = (lower_rune (a ∷ s)).0 ∷ lower_from (lower_rune (a ∷ s)).1 s

-- `strings.ToLower`, up to the runes whose lower case is not ASCII either: those stay.
unfoldable pub to_lower : Text → Text
unfolding lower_from
to_lower s = lower_from 0 s

-- `strings.HasPrefix`
unfoldable pub has_prefix : Text → Text → Bool
has_prefix s [] = true
has_prefix [] (b ∷ p) = false
has_prefix (a ∷ s) (b ∷ p) = (a == b) && has_prefix s p

-- `strings.Contains(s, string(b))` for one byte.
unfoldable pub has_byte : ℕ → Text → Bool
has_byte b [] = false
has_byte b (a ∷ s) = (a == b) || has_byte b s

-- One of the texts of a list.
unfoldable pub is_listed : Text → List Text → Bool
is_listed s [] = false
is_listed s (t ∷ ts) = text_eq s t || is_listed s ts
