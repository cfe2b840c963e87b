-- ===== src/Names.antt =====
-- The user names that a registration takes.
use masonic_core.Prelude.{
  ℕ, zero, suc, ◌+◌, ◌≤◌, ◌≡◌, refl, ap, ◌∙◌, ◌↔◌, inl, inr, Bool, true, List, [], ◌∷◌, ◌++◌, arith,
  all_rows, length,
}
use masonic_core.Text.{Text}
use masonic_core.Text.Regex.{one, up_to, between, Matches, match_string}
use masonic_core.Text.Regex.Sound.{match_string_iff}
use masonic_core.Services.Patterns.{username_re, word_byte}

module _ (p : ℕ → Bool) where
  -- So many bytes, all of which pass the test.
  HasBytes : ℕ → ℕ → List ℕ → Type 0
  HasBytes m n s = (m ≤ length s) × (length s ≤ n) × (all_rows p s ≡ true)

  HasBytes-cons :
      (m n : ℕ) (a t s : List ℕ) (c : ℕ)
      → a ≡ c ∷ []
      → s ≡ a ++ t
      → p c ≡ true
      → HasBytes m n t
      → HasBytes (suc m) (suc n) s
  unfolding HasBytes all_rows
  HasBytes-cons m n a t s c e j h (low, high, good) =
      let is : s ≡ c ∷ t = j ∙ ap (λ (u : List ℕ). u ++ t) e in
      rw is (omega arith, omega arith, ground arith)

  up_to-HasBytes : (n : ℕ) (s : List ℕ) → Matches (up_to n (one p)) s → HasBytes 0 n s
  unfolding HasBytes all_rows
  up_to-HasBytes zero s m = rw m (omega arith, omega arith, refl)
  up_to-HasBytes (suc n) s (inl m) = rw m (omega arith, omega arith, refl)
  up_to-HasBytes (suc n) s (inr (a, t, (c, h, e), m, j)) =
      let (low, high, good) = HasBytes-cons 0 n a t s c e j h (up_to-HasBytes n t m) in
      (omega arith, high, good)

  between-HasBytes : (m n : ℕ) (s : List ℕ) → Matches (between m n (one p)) s → HasBytes m (m + n) s
  unfolding HasBytes
  between-HasBytes zero n s h =
      let (low, high, good) = up_to-HasBytes n s h in (low, omega arith, good)
  between-HasBytes (suc m) n s (a, t, (c, h, e), k, j) =
      let (low, high, good) = HasBytes-cons m (m + n) a t s c e j h (between-HasBytes m n t k) in
      (low, omega arith, good)

  HasBytes-up_to : (n : ℕ) (s : List ℕ) → HasBytes 0 n s → Matches (up_to n (one p)) s
  unfolding HasBytes all_rows
  HasBytes-up_to zero [] h = refl
  HasBytes-up_to (suc n) [] h = inl refl
  HasBytes-up_to zero (c ∷ s) (low, high, good) = absurd (omega arith)
  HasBytes-up_to (suc n) (c ∷ s) (low, high, good) = inr (
    c ∷ [],
    s,
    (c, ground arith, refl),
    HasBytes-up_to n s (omega arith, omega arith, ground arith),
    refl,
  )

  HasBytes-between : (m n : ℕ) (s : List ℕ) → HasBytes m (m + n) s → Matches (between m n (one p)) s
  unfolding HasBytes all_rows
  HasBytes-between zero n s (low, high, good) = HasBytes-up_to n s (low, omega arith, good)
  HasBytes-between (suc m) n [] (low, high, good) = absurd (omega arith)
  HasBytes-between (suc m) n (c ∷ s) (low, high, good) = (
    c ∷ [],
    s,
    (c, ground arith, refl),
    HasBytes-between m n s (omega arith, omega arith, ground arith),
    refl,
  )

-- The pattern of user names accepts a text exactly when it has 3 to 32 bytes and each of them is a
-- letter, a digit or an underscore.
pub username_re_iff :
    (s : Text)
    → (match_string username_re s ≡ true)
      ↔ ((3 ≤ length s) × (length s ≤ 32) × (all_rows word_byte s ≡ true))
unfolding username_re HasBytes
username_re_iff s = (
  λ h. between-HasBytes word_byte 3 29 s ((match_string_iff username_re s).0 h),
  λ h. (match_string_iff username_re s).1 (HasBytes-between word_byte 3 29 s h),
)
