-- ===== src/Prelude/Rows.antt =====
-- Lemmas on the rows of a table.
use Prim.Native.Nat.{◌+◌}
use mathlib.Core.Path.{◌≡◌, refl, subst}
use mathlib.Core.Logic.{inl, inr}
use mathlib.Core.Bool.{Bool, true, false, not, ◌&&◌}
use mathlib.Core.Option.{some}
use mathlib.Core.List.{List, [], ◌∷◌, ◌++◌, map, Mem, mem-cons_self, mem-cons_of_mem}
use native.Mathlib.Omega.{arith}
use masonic_core.Prelude.Tests.{if◌then◌else◌, Bool-cases}
use masonic_core.Prelude.Tables.{All, length, any_row, find_row, update_rows, keep_rows, count_rows}

module _ {ℓ} {A : Type ℓ} where
  pub length-append : (xs ys : List A) → length (xs ++ ys) ≡ length xs + length ys
  length-append [] ys = omega arith
  length-append (x ∷ xs) ys = omega (arith, length-append xs ys)

pub All-map {ℓ κ μ} :
    {A : Type ℓ} (P : A → Type κ) (Q : A → Type μ) (f : A → A)
    → ((x : A) → P x → Q (f x))
    → (xs : List A) → All P xs
    → All Q (map f xs)
All-map P Q f h [] a = tt
All-map P Q f h (x ∷ xs) (p, a) = (h x p, All-map P Q f h xs a)

pub All-update {ℓ κ μ} :
    {A : Type ℓ} (P : A → Type κ) (Q : A → Type μ) (p : A → Bool) (f : A → A)
    → ((x : A) → P x → Q (if p x then f x else x))
    → (xs : List A) → All P xs
    → All Q (update_rows p f xs)
unfolding update_rows
All-update P Q p f h [] a = tt
All-update P Q p f h (x ∷ xs) (b, a) = (h x b, All-update P Q p f h xs a)

pub All-imp {ℓ κ μ} :
    {A : Type ℓ} (P : A → Type κ) (Q : A → Type μ)
    → ((x : A) → P x → Q x)
    → (xs : List A) → All P xs
    → All Q xs
All-imp P Q h [] a = tt
All-imp P Q h (x ∷ xs) (p, a) = (h x p, All-imp P Q h xs a)

-- Every row of a list is one of it.
pub All-Mem {ℓ} : {A : Type ℓ} (xs : List A) → All (λ x. Mem x xs) xs
All-Mem [] = tt
All-Mem (x ∷ xs) = (
  mem-cons_self,
  All-imp (λ y. Mem y xs) (λ y. Mem y (x ∷ xs)) (λ y h. mem-cons_of_mem x h) xs (All-Mem xs),
)

-- The rows that a test keeps have passed it.
pub All-keep {ℓ κ μ} :
    {A : Type ℓ} (P : A → Type κ) (Q : A → Type μ) (p : A → Bool)
    → ((x : A) → p x ≡ true → P x → Q x)
    → (xs : List A) → All P xs
    → All Q (keep_rows p xs)
unfolding keep_rows
All-keep P Q p h [] a = tt
All-keep P Q p h (x ∷ xs) (b, a) = elim (Bool-cases (p x)) [
  | inl e ↦ rw e (h x e b, All-keep P Q p h xs a)
  | inr e ↦ rw e (All-keep P Q p h xs a)
]

-- A found row is one of the list.
pub All-find {ℓ κ} :
    {A : Type ℓ} (P : A → Type κ) (p : A → Bool) (xs : List A) (x : A)
    → find_row p xs ≡ some x
    → All P xs
    → P x × (p x ≡ true)
unfolding find_row
All-find P p [] x e a = cc
All-find P p (y ∷ ys) x e (b, a) = elim (Bool-cases (p y)) [
  | inl h ↦
      let same : some y ≡ some x = rw h at e in let eq : y ≡ x = cc in (subst P eq b, rw (← eq) h)
  | inr h ↦ All-find P p ys x (rw h at e) a
]

module _ {ℓ} {A : Type ℓ} where
  pub any-update :
      (q p : A → Bool) (f : A → A)
      → ((x : A) → q (f x) ≡ q x)
      → (xs : List A) → any_row q (update_rows p f xs) ≡ any_row q xs
  unfolding any_row update_rows
  any-update q p f h [] = refl
  any-update q p f h (x ∷ xs) = ground (arith, h x, any-update q p f h xs)

  pub any-map :
      (q : A → Bool) (f : A → A)
      → ((x : A) → q (f x) ≡ q x)
      → (xs : List A) → any_row q (map f xs) ≡ any_row q xs
  unfolding any_row
  any-map q f h [] = refl
  any-map q f h (x ∷ xs) = ground (arith, h x, any-map q f h xs)

  -- A row that is not among those that go stays.
  pub any-keep_not :
      (q p : A → Bool) (xs : List A)
      → any_row q xs ≡ true
      → any_row (λ x. p x && q x) xs ≡ false
      → any_row q (keep_rows (λ x. not (p x)) xs) ≡ true
  unfolding any_row keep_rows
  any-keep_not q p [] h g = cc
  any-keep_not q p (x ∷ xs) h g = ground (arith, any-keep_not q p xs)

  pub count_update :
      (q p : A → Bool) (f : A → A)
      → ((x : A) → q (f x) ≡ q x)
      → (xs : List A) → count_rows q (update_rows p f xs) ≡ count_rows q xs
  unfolding count_rows update_rows
  count_update q p f h [] = refl
  count_update q p f h (x ∷ xs) = ground (arith, h x, count_update q p f h xs)
