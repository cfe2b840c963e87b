-- ===== src/Prelude/Order.antt =====
-- Rows in the order of an ORDER BY.
use mathlib.Core.Path.{◌≡◌}
use mathlib.Core.Logic.{inl, inr}
use mathlib.Core.Bool.{Bool, true, false}
use mathlib.Core.List.{List, [], ◌∷◌}
use masonic_core.Prelude.Tests.{Bool-cases}
use masonic_core.Prelude.Tables.{All, insert_row, order_rows}
use masonic_core.Prelude.Rows.{All-imp}

module _ {ℓ} {A : Type ℓ} where
  -- No row comes before one that stands ahead of it.
  abbrev pub IsOrdered : (A → A → Bool) → List A → Type 0
  IsOrdered before [] = Unit {0}
  IsOrdered before (x ∷ xs) = All (λ y. before y x ≡ false) xs × IsOrdered before xs

  module _ {κ} (P : A → Type κ) (before : A → A → Bool) where
    All-insert_row : (x : A) (xs : List A) → P x → All P xs → All P (insert_row before x xs)
    unfolding insert_row
    All-insert_row x [] p a = (p, tt)
    All-insert_row x (y ∷ ys) p (q, a) = elim (Bool-cases (before y x)) [
      | inl e ↦ rw e (q, All-insert_row x ys p a)
      | inr e ↦ rw e (p, (q, a))
    ]

    pub All-order_rows : (xs : List A) → All P xs → All P (order_rows before xs)
    unfolding order_rows
    All-order_rows [] a = tt
    All-order_rows (x ∷ xs) (p, a) = All-insert_row x (order_rows before xs) p (All-order_rows xs a)

    insert_row-All : (x : A) (xs : List A) → All P (insert_row before x xs) → P x × All P xs
    unfolding insert_row
    insert_row-All x [] (p, a) = (p, tt)
    insert_row-All x (y ∷ ys) a = elim (Bool-cases (before y x)) [
      | inl e ↦
          let t : P y × All P (insert_row before x ys) = rw e at a in
          let (p, b) = insert_row-All x ys t.1 in (p, (t.0, b))
      | inr e ↦ rw e at a
    ]

    -- Every row of a table is among those in order.
    pub order_rows-All : (xs : List A) → All P (order_rows before xs) → All P xs
    unfolding order_rows
    order_rows-All [] a = tt
    order_rows-All (x ∷ xs) a =
        let (p, b) = insert_row-All x (order_rows before xs) a in (p, order_rows-All xs b)

  module _ (before : A → A → Bool) (asym : (x y : A) → before x y ≡ true → before y x ≡ false)
      (later : (x y z : A) → before z y ≡ false → before y x ≡ false → before z x ≡ false) where
    insert_row-IsOrdered :
        (x : A) (xs : List A) → IsOrdered before xs → IsOrdered before (insert_row before x xs)
    unfolding insert_row
    insert_row-IsOrdered x [] o = (tt, tt)
    insert_row-IsOrdered x (y ∷ ys) (a, o) = elim (Bool-cases (before y x)) [
      | inl e ↦ rw e (
        All-insert_row (λ z. before z y ≡ false) before x ys (asym y x e) a,
        insert_row-IsOrdered x ys o,
      )
      | inr e ↦ rw e (
        (
          e,
          All-imp (λ z. before z y ≡ false) (λ z. before z x ≡ false) (λ z h. later x y z h e) ys a,
        ),
        (a, o),
      )
    ]

    pub order_rows-IsOrdered : (xs : List A) → IsOrdered before (order_rows before xs)
    unfolding order_rows
    order_rows-IsOrdered [] = tt
    order_rows-IsOrdered (x ∷ xs) =
        insert_row-IsOrdered x (order_rows before xs) (order_rows-IsOrdered xs)
