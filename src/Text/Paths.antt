-- ===== src/Text/Paths.antt =====
-- `path.Ext`, `path.Base` and `strings.TrimRight(s, "/")`.
use masonic_core.Prelude.{ℕ, ◌≡◌, refl, List, [], ◌∷◌, reverse, ◌==◌, if◌then◌else◌}

-- Over a reversed path: the bytes up to the last dot, if no slash comes first.
unfoldable pub ext_back : List ℕ → List ℕ → List ℕ
ext_back acc [] = []
ext_back acc (c ∷ s) =
    let rest = ext_back (c ∷ acc) s in if c == b'/' then [] else if c == b'.' then c ∷ acc else rest

unfoldable pub ext : List ℕ → List ℕ
unfolding ext_back
ext s = ext_back [] (reverse s)

unfoldable pub drop_slashes : List ℕ → List ℕ
drop_slashes [] = []
drop_slashes (c ∷ s) = let rest = drop_slashes s in if c == b'/' then rest else c ∷ s

unfoldable pub trim_right_slashes : List ℕ → List ℕ
unfolding drop_slashes
trim_right_slashes s = reverse (drop_slashes (reverse s))

-- Over a reversed path: what stands before the next slash, in order.
unfoldable pub until_slash : List ℕ → List ℕ → List ℕ
until_slash acc [] = acc
until_slash acc (c ∷ s) = let rest = until_slash (c ∷ acc) s in if c == b'/' then acc else rest

slash_if_empty : List ℕ → List ℕ
slash_if_empty [] = b'/' ∷ []
slash_if_empty (c ∷ s) = c ∷ s

unfoldable pub base : List ℕ → List ℕ
unfolding drop_slashes until_slash slash_if_empty
base [] = b'.' ∷ []
base (c ∷ s) = slash_if_empty (until_slash [] (drop_slashes (reverse (c ∷ s))))

ext_test : ext (b'a' ∷ b'.' ∷ b'b' ∷ b'.' ∷ b'p' ∷ b'g' ∷ []) ≡ b'.' ∷ b'p' ∷ b'g' ∷ []
unfolding ext
ext_test = refl

base_test : base (b'x' ∷ b'/' ∷ b'a' ∷ b'b' ∷ b'/' ∷ []) ≡ b'a' ∷ b'b' ∷ []
unfolding base
base_test = refl
