-- ===== src/Auth/Scan.antt =====
-- What password.go uses of `strings.Split` and `fmt`: pieces between bytes, decimals printed, and the
-- verb `%d` of Sscanf after a literal.
use masonic_core.Prelude.{
  ℕ, zero, suc, ◌+◌, ◌-◌, ◌*◌, ◌/◌, ◌%◌, Bool, ◌&&◌, ◌||◌, Option, none, some, List, [], ◌∷◌, ltb,
  leb, ◌==◌, if◌then◌else◌,
}

-- Puts a byte in front of the first piece.
unfoldable pub onto_first : ℕ → List (List ℕ) → List (List ℕ)
onto_first c [] = (c ∷ []) ∷ []
onto_first c (s ∷ ss) = (c ∷ s) ∷ ss

-- strings.Split by one byte.
unfoldable pub split : ℕ → List ℕ → List (List ℕ)
unfolding onto_first
split b [] = [] ∷ []
split b (c ∷ s) = let rest = split b s in if c == b then [] ∷ rest else onto_first c rest

decimal_from : ℕ → ℕ → List ℕ → List ℕ
decimal_from zero n acc = acc
decimal_from (suc f) n acc =
    let rest = decimal_from f (n / 10) ((n % 10 + 48) ∷ acc) in
    if ltb n 10 then (n + 48) ∷ acc else rest

-- `%d` of Sprintf; a number has at most as many digits as its value plus one.
unfoldable pub decimal : ℕ → List ℕ
unfolding decimal_from
decimal n = decimal_from (n + 1) n []

abbrev is_digit : ℕ → Bool
is_digit c = leb 48 c && leb c 57

-- The digits at the head, with the value that they continue.
digits : ℕ → List ℕ → ℕ × List ℕ
digits n [] = (n, [])
digits n (c ∷ s) =
    let rest = digits (n * 10 + (c - 48)) s in if is_digit c then rest else (n, c ∷ s)

skip_blanks : List ℕ → List ℕ
skip_blanks [] = []
skip_blanks (c ∷ s) = let rest = skip_blanks s in if c == 32 || c == 9 then rest else c ∷ s

-- An unsigned number that starts here, if it fits its type.
number_here : ℕ → List ℕ → Option (ℕ × List ℕ)
unfolding digits
number_here limit [] = none
number_here limit (c ∷ s) =
    let r = digits 0 (c ∷ s) in if is_digit c && ltb r.0 limit then some r else none

unfoldable pub scan_number : ℕ → List ℕ → Option (ℕ × List ℕ)
unfolding skip_blanks number_here
scan_number limit s = number_here limit (skip_blanks s)

-- The same for a signed type: a plus sign may stand in front. No caller goes on from a negative
-- number, so a minus sign is refused at once.
unfoldable pub scan_signed : ℕ → List ℕ → Option (ℕ × List ℕ)
unfolding skip_blanks scan_number
scan_signed limit s = elim (skip_blanks s) [
  | [] ↦ none
  | c ∷ r ↦ if c == b'+' then number_here limit r else number_here limit (c ∷ r)
]

-- A literal of the format.
unfoldable pub scan_literal : List ℕ → List ℕ → Option (List ℕ)
scan_literal [] s = some s
scan_literal (b ∷ p) [] = none
scan_literal (b ∷ p) (c ∷ s) = let rest = scan_literal p s in if c == b then rest else none
