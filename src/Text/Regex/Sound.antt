-- ===== src/Text/Regex/Sound.antt =====
-- `match_string` decides the language of an expression.
use masonic_core.Prelude.{
  ℕ, ◌≡◌, refl, sym, ap, ◌∙◌, ◌↔◌, inl, inr, Bool, true, false, List, [], ◌∷◌, ◌++◌, arith,
  Bool-cases, if◌then◌else◌,
}
use masonic_core.Text.Regex.{
  Re, none_of, empty, one, both, either, star, stop, more, Matches, nullable, derive, match_string,
}

nullable_sound : (r : Re) → nullable r ≡ true → Matches r []
unfolding nullable
nullable_sound none_of h = cc
nullable_sound empty h = refl
nullable_sound (one p) h = cc
nullable_sound (both r q) h =
    ([], [], nullable_sound r (ground arith), nullable_sound q (ground arith), refl)
nullable_sound (either r q) h = elim (Bool-cases (nullable r)) [
  | inl e ↦ inl (nullable_sound r e)
  | inr e ↦ inr (nullable_sound q (ground arith))
]
nullable_sound (star r) h = stop refl

nullable_complete : (r : Re) (u : List ℕ) → u ≡ [] → Matches r u → nullable r ≡ true
unfolding nullable
nullable_complete none_of u e m = absurd m
nullable_complete empty u e m = refl
nullable_complete (one p) u e m = cc (m.2)
nullable_complete (both r q) u e (s, t, m, n, j) = ground (
  arith,
  nullable_complete r s (prefix_nil s t (sym j ∙ e)) m,
  nullable_complete q t (suffix_nil s t (sym j ∙ e)) n,
)
  where
    prefix_nil : (s t : List ℕ) → s ++ t ≡ [] → s ≡ []
    prefix_nil [] t h = refl
    prefix_nil (x ∷ s) t h = cc

    suffix_nil : (s t : List ℕ) → s ++ t ≡ [] → t ≡ []
    suffix_nil [] t h = h
    suffix_nil (x ∷ s) t h = cc
nullable_complete (either r q) u e (inl m) = ground (arith, nullable_complete r u e m)
nullable_complete (either r q) u e (inr m) = ground (arith, nullable_complete q u e m)
nullable_complete (star r) u e m = refl

module _ (c : ℕ) (u : List ℕ) where
  one_sound :
      (p : ℕ → Bool) (b : Bool)
      → p c ≡ b
      → Matches (if b then empty else none_of) u
      → Matches (one p) (c ∷ u)
  one_sound p true e m = (c, e, ap (◌∷◌ c) m)
  one_sound p false e m = absurd m

  one_complete :
      (p : ℕ → Bool) (d : ℕ) (b : Bool)
      → p c ≡ b
      → p d ≡ true
      → c ∷ u ≡ d ∷ []
      → Matches (if b then empty else none_of) u
  one_complete p d true e h j = cc
  one_complete p d false e h j = cc

  module _ (r q : Re) where
    abbrev after : Bool → Re → Re → Re
    after b head rest = if b then either (both head q) rest else both head q

    both_sound :
        (b : Bool)
        → nullable r ≡ b
        → ((s : List ℕ) → Matches (derive c r) s → Matches r (c ∷ s))
        → (Matches (derive c q) u → Matches q (c ∷ u))
        → Matches (after b (derive c r) (derive c q)) u
        → Matches (both r q) (c ∷ u)
    both_sound true e ih_r ih_q (inl (s, t, m, n, j)) = (c ∷ s, t, ih_r s m, n, ap (◌∷◌ c) j)
    both_sound true e ih_r ih_q (inr m) = ([], c ∷ u, nullable_sound r e, ih_q m, refl)
    both_sound false e ih_r ih_q (s, t, m, n, j) = (c ∷ s, t, ih_r s m, n, ap (◌∷◌ c) j)

    both_complete :
        (b : Bool) (s t : List ℕ)
        → nullable r ≡ b
        → ((s' : List ℕ) → s ≡ c ∷ s' → Matches (derive c r) s')
        → (t ≡ c ∷ u → Matches (derive c q) u)
        → Matches r s
        → Matches q t
        → c ∷ u ≡ s ++ t
        → Matches (after b (derive c r) (derive c q)) u
    both_complete true [] t e ih_r ih_q m n j = inr (ih_q (sym j))
    both_complete false [] t e ih_r ih_q m n j = cc (nullable_complete r [] refl m)
    both_complete true (d ∷ s) t e ih_r ih_q m n j = inl (s, t, ih_r s (cc), n, cc)
    both_complete false (d ∷ s) t e ih_r ih_q m n j = (s, t, ih_r s (cc), n, cc)

derive_sound : (c : ℕ) (r : Re) (u : List ℕ) → Matches (derive c r) u → Matches r (c ∷ u)
unfolding derive
derive_sound c none_of u m = absurd m
derive_sound c empty u m = absurd m
derive_sound c (one p) u m = one_sound c u p (p c) refl m
derive_sound c (both r q) u m =
    both_sound c u r q (nullable r) refl (λ s. derive_sound c r s) (derive_sound c q u) m
derive_sound c (either r q) u (inl m) = inl (derive_sound c r u m)
derive_sound c (either r q) u (inr m) = inr (derive_sound c q u m)
derive_sound c (star r) u (s, t, m, n, j) = more c s t (derive_sound c r s m) n (ap (◌∷◌ c) j)

derive_complete : (c : ℕ) (r : Re) (u v : List ℕ) → v ≡ c ∷ u → Matches r v → Matches (derive c r) u
unfolding derive
derive_complete c none_of u v e m = m
derive_complete c empty u v e m = cc
derive_complete c (one p) u v e (d, h, j) = one_complete c u p d (p c) refl h (sym e ∙ j)
derive_complete c (both r q) u v e (s, t, m, n, j) =
    both_complete c u r q (nullable r) s t refl (λ s' h. derive_complete c r s' s h m)
      (λ h. derive_complete c q u t h n) m n (sym e ∙ j)
derive_complete c (either r q) u v e (inl m) = inl (derive_complete c r u v e m)
derive_complete c (either r q) u v e (inr m) = inr (derive_complete c q u v e m)
derive_complete c (star r) u v e (stop h) = cc
derive_complete c (star r) u v e (more d s t m n j) =
    (s, t, derive_complete c r s (d ∷ s) (cc) m, n, cc)

match_sound : (r : Re) (s : List ℕ) → match_string r s ≡ true → Matches r s
unfolding match_string
match_sound r [] h = nullable_sound r h
match_sound r (c ∷ s) h = derive_sound c r s (match_sound (derive c r) s h)

match_complete : (r : Re) (s : List ℕ) → Matches r s → match_string r s ≡ true
unfolding match_string
match_complete r [] m = nullable_complete r [] refl m
match_complete r (c ∷ s) m = match_complete (derive c r) s (derive_complete c r s (c ∷ s) refl m)

-- The derivatives accept a text exactly when it is in the language of the expression.
pub match_string_iff : (r : Re) (s : List ℕ) → (match_string r s ≡ true) ↔ Matches r s
match_string_iff r s = (match_sound r s, match_complete r s)
