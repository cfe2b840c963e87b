-- ===== src/Web/Pages.antt =====
-- The page that a request asks for.
use masonic_core.Prelude.{
  ℕ, ◌^◌, ◌≤◌, ◌<◌, inl, inr, Bool, true, false, Option, none, some, [], ◌∷◌, arith, ltb, leb, ◌==◌,
  Bool-cases, ℤ, pos, negsuc,
}
use masonic_core.Text.{Text, text}
use masonic_core.Http.{Request}
use masonic_core.Http.Input.{value_of, unsigned, fits, atoi, limit_or, offset_or, pagination}

limit_bounds : (o : Option ℤ) → (1 ≤ limit_or 20 o) × (limit_or 20 o ≤ 100)
unfolding limit_or
limit_bounds none = (omega arith, omega arith)
limit_bounds (some (negsuc n)) = (omega arith, omega arith)
limit_bounds (some (pos n)) = (ground arith, ground arith)

-- A number below 2 ^ 63, if it is not negative.
abbrev IsSmall : Option ℤ → Type 0
IsSmall none = Unit {0}
IsSmall (some (negsuc n)) = Unit {0}
IsSmall (some (pos n)) = n < 2 ^ 63

fits-IsSmall : (b : Bool) (o : Option ℕ) → IsSmall (fits b o)
unfolding fits
fits-IsSmall b none = tt
fits-IsSmall true (some n) = elim (Bool-cases (leb n (2 ^ 63))) [
  | inl e ↦ elim (Bool-cases (n == 0)) [ inl z ↦ rw (e, z) (omega arith) | inr z ↦ rw (e, z) tt ]
  | inr e ↦ rw e tt
]
fits-IsSmall false (some n) = elim (Bool-cases (ltb n (2 ^ 63))) [
  | inl e ↦ rw e (ground arith)
  | inr e ↦ rw e tt
]

atoi-IsSmall : (s : Text) → IsSmall (atoi s)
unfolding atoi
atoi-IsSmall [] = tt
atoi-IsSmall (c ∷ s) = elim (Bool-cases (c == b'-')) [
  | inl m ↦ rw m (fits-IsSmall true (unsigned s))
  | inr m ↦ elim (Bool-cases (c == b'+')) [
    | inl p ↦ rw (m, p) (fits-IsSmall false (unsigned s))
    | inr p ↦ rw (m, p) (fits-IsSmall false (unsigned (c ∷ s)))
  ]
]

offset_bound : (o : Option ℤ) → IsSmall o → offset_or 0 o < 2 ^ 63
unfolding offset_or
offset_bound none h = omega arith
offset_bound (some (negsuc n)) h = omega arith
offset_bound (some (pos n)) h = h

-- Whatever the query of a request says, a page has at least one row and at most 100, and its offset
-- is a number of 63 bits.
pub pagination-bounds :
    (r : Request) → (1 ≤ (pagination r).0) × ((pagination r).0 ≤ 100) × ((pagination r).1 < 2 ^ 63)
unfolding pagination
pagination-bounds r =
    let (low, high) = limit_bounds (atoi (value_of (text "limit") r.query)) in
    (low, high, offset_bound _ (atoi-IsSmall (value_of (text "offset") r.query)))
