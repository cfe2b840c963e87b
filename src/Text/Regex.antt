-- ===== src/Text/Regex.antt =====
-- The regular expressions of the services. `Re` has the forms that their literals use, `Matches` is
-- the language of an expression, and `match_string` runs an expression by Brzozowski derivatives.
pub mod Sound
use masonic_core.Prelude.{
  ℕ, zero, suc, ◌≡◌, ◌↔◌, Bool, true, false, ◌&&◌, ◌||◌, List, [], ◌∷◌, ◌++◌, ◌⊎◌, if◌then◌else◌,
}

pub data Re : Type 0 where
  none_of : Re
  empty : Re
  one : (ℕ → Bool) → Re
  both : Re → Re → Re
  either : Re → Re → Re
  star : Re → Re

-- r+, r{0,n} and r{m,m+n}
abbrev pub plus : Re → Re
plus r = both r (star r)

abbrev pub up_to : ℕ → Re → Re
up_to zero r = empty
up_to (suc n) r = either empty (both r (up_to n r))

abbrev pub between : ℕ → ℕ → Re → Re
between zero n r = up_to n r
between (suc m) n r = both r (between m n r)

-- Some pieces, none of them empty, one after the other.
pub data Pieces (P : List ℕ → Type 0) : List ℕ → Type 0 where
  stop : {u : List ℕ} → u ≡ [] → Pieces P u
  more :
      {u : List ℕ} (c : ℕ) (s t : List ℕ) → P (c ∷ s) → Pieces P t → u ≡ c ∷ (s ++ t) → Pieces P u

-- The whole text is in the language: each expression of the services is anchored at both ends.
abbrev pub Matches : Re → List ℕ → Type 0
Matches none_of u = ⊥
Matches empty u = u ≡ []
Matches (one p) u = (c : ℕ) × (p c ≡ true) × (u ≡ c ∷ [])
Matches (both r q) u = (s : List ℕ) × (t : List ℕ) × Matches r s × Matches q t × (u ≡ s ++ t)
Matches (either r q) u = Matches r u ⊎ Matches q u
Matches (star r) u = Pieces (Matches r) u

pub nullable : Re → Bool
nullable none_of = false
nullable empty = true
nullable (one p) = false
nullable (both r q) = nullable r && nullable q
nullable (either r q) = nullable r || nullable q
nullable (star r) = true

pub derive : ℕ → Re → Re
unfolding nullable
derive c none_of = none_of
derive c empty = none_of
derive c (one p) = if p c then empty else none_of
derive c (both r q) =
    let head = both (derive c r) q in
    let rest = derive c q in if nullable r then either head rest else head
derive c (either r q) = either (derive c r) (derive c q)
derive c (star r) = both (derive c r) (star r)

unfoldable pub match_string : Re → List ℕ → Bool
unfolding derive nullable
match_string r [] = nullable r
match_string r (c ∷ s) = match_string (derive c r) s
