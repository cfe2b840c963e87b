-- ===== src/Inbox/Partners.antt =====
-- The first row of each partner in an order by partner: internal/store/message.go, Inbox.
use masonic_core.Prelude.{
  ℕ, ◌≤◌, ◌<◌, ◌≡◌, refl, ◌⊎◌, inl, inr, Bool, true, false, ◌&&◌, Option, none, some, List, [], ◌∷◌,
  arith, leb, ◌==◌, if◌then◌else◌, Bool-cases, any_row, keep_rows, order_rows, has_value, All,
  All-imp,
}
use masonic_core.Models.{PrivateMessage}
use masonic_core.World.{Database, Stamp, scanned}
use masonic_core.Prelude.{IsOrdered, order_rows-All, order_rows-IsOrdered}
use masonic_core.Store.Message.{partner, touches, by_partner, first_of_partner, latest_per_partner}

module _ (user_id : ℕ) where
  by_partner_asym :
      (a b : PrivateMessage) → by_partner user_id a b ≡ true → by_partner user_id b a ≡ false
  unfolding by_partner
  by_partner_asym a b h = ground arith

  by_partner_later :
      (a b c : PrivateMessage)
      → by_partner user_id c b ≡ false
      → by_partner user_id b a ≡ false
      → by_partner user_id c a ≡ false
  unfolding by_partner
  by_partner_later a b c h g = ground arith

  -- The partners come one after another.
  abbrev pub IsIncreasing : List PrivateMessage → Type 0
  IsIncreasing [] = Unit {0}
  IsIncreasing (m ∷ ms) = All (λ k. partner user_id m < partner user_id k) ms × IsIncreasing ms

  abbrev AtLeast : Option ℕ → PrivateMessage → Type 0
  AtLeast none m = Unit {0}
  AtLeast (some k) m = k ≤ partner user_id m

  abbrev Beyond : Option ℕ → PrivateMessage → Type 0
  Beyond none m = Unit {0}
  Beyond (some k) m = k < partner user_id m

  Beyond-first :
      (last : Option ℕ) (m : PrivateMessage)
      → has_value last (partner user_id m) ≡ false
      → AtLeast last m
      → Beyond last m
  Beyond-first none m h a = tt
  Beyond-first (some k) m h a = ground arith

  Beyond-later :
      (last : Option ℕ) (m z : PrivateMessage)
      → AtLeast last m
      → partner user_id m < partner user_id z
      → Beyond last z
  Beyond-later none m z a h = tt
  Beyond-later (some k) m z a h = omega arith

  at_least :
      (m z : PrivateMessage)
      → by_partner user_id z m ≡ false
      → partner user_id m ≤ partner user_id z
  unfolding by_partner
  at_least m z h = ground arith

  firsts-IsIncreasing :
      (last : Option ℕ) (ms : List PrivateMessage)
      → IsOrdered (by_partner user_id) ms
      → All (AtLeast last) ms
      → All (Beyond last) (first_of_partner user_id last ms)
        × IsIncreasing (first_of_partner user_id last ms)
  unfolding first_of_partner
  firsts-IsIncreasing last [] o a = (tt, tt)
  firsts-IsIncreasing last (m ∷ ms) (before, o) (l, a) =
      let (far, inc) =
        firsts-IsIncreasing (some (partner user_id m)) ms o
          (All-imp _ (AtLeast (some (partner user_id m))) (λ z h. at_least m z h) ms before) in
      let rest = first_of_partner user_id (some (partner user_id m)) ms in
      let wide : All (Beyond last) rest =
        All-imp _ (Beyond last) (λ z h. Beyond-later last m z l h) rest far in
      elim (Bool-cases (has_value last (partner user_id m))) [
        | inl e ↦ rw e (wide, inc)
        | inr e ↦ rw e ((Beyond-first last m e l, wide), (far, inc))
      ]

  -- The same partner, and not earlier.
  abbrev pub stands_for : PrivateMessage → PrivateMessage → Bool
  stands_for m l = partner user_id l == partner user_id m && leb m.created_at l.created_at

  abbrev Stood : Option ℕ → List PrivateMessage → PrivateMessage → Type 0
  Stood last ls m = (has_value last (partner user_id m) ≡ true) ⊎ (any_row (stands_for m) ls ≡ true)

  head_stands :
      (m z : PrivateMessage)
      → by_partner user_id z m ≡ false
      → partner user_id m ≡ partner user_id z
      → stands_for z m ≡ true
  unfolding by_partner
  head_stands m z h e = ground arith

  same_last :
      (last : Option ℕ) (k n : ℕ)
      → has_value last k ≡ true
      → (k == n) ≡ true
      → has_value last n ≡ true
  same_last none k n h e = cc
  same_last (some j) k n h e = ground arith

  Stood-later :
      (last : Option ℕ) (m z : PrivateMessage) (rest : List PrivateMessage)
      → by_partner user_id z m ≡ false
      → Stood (some (partner user_id m)) rest z
      → Stood last (if has_value last (partner user_id m) then rest else m ∷ rest) z
  unfolding any_row
  Stood-later last m z rest h (inl e) = elim (Bool-cases (has_value last (partner user_id m))) [
    | inl g ↦ inl (same_last last (partner user_id m) (partner user_id z) g e)
    | inr g ↦ rw g (inr (rw (head_stands m z h (ground arith)) refl))
  ]
  Stood-later last m z rest h (inr e) = elim (Bool-cases (has_value last (partner user_id m))) [
    | inl g ↦ rw g (inr e)
    | inr g ↦ rw g (inr (ground arith))
  ]

  Stood-head :
      (last : Option ℕ) (m : PrivateMessage) (rest : List PrivateMessage)
      → Stood last (if has_value last (partner user_id m) then rest else m ∷ rest) m
  unfolding any_row
  Stood-head last m rest = elim (Bool-cases (has_value last (partner user_id m))) [
    | inl g ↦ inl g
    | inr g ↦ rw g (inr (ground arith))
  ]

  All-both {κ μ ν} :
      {P : PrivateMessage → Type κ} {Q : PrivateMessage → Type μ} {R : PrivateMessage → Type ν}
      → ((m : PrivateMessage) → P m → Q m → R m)
      → (ms : List PrivateMessage) → All P ms
      → All Q ms
      → All R ms
  All-both f [] a b = tt
  All-both f (m ∷ ms) (p, a) (q, b) = (f m p q, All-both f ms a b)

  firsts-Stood :
      (last : Option ℕ) (ms : List PrivateMessage)
      → IsOrdered (by_partner user_id) ms
      → All (Stood last (first_of_partner user_id last ms)) ms
  unfolding first_of_partner any_row
  firsts-Stood last [] o = tt
  firsts-Stood last (m ∷ ms) (before, o) =
      let rest = first_of_partner user_id (some (partner user_id m)) ms in
      (
        Stood-head last m rest,
        All-both (λ z h i. Stood-later last m z rest h i) ms before
            (firsts-Stood (some (partner user_id m)) ms o),
      )

  every : (ms : List PrivateMessage) → All (AtLeast none) ms
  every [] = tt
  every (m ∷ ms) = (tt, every ms)

  Stood-none :
      (ls : List PrivateMessage) (m : PrivateMessage)
      → Stood none ls m
      → any_row (stands_for m) ls ≡ true
  Stood-none ls m (inl e) = cc
  Stood-none ls m (inr e) = e

  -- A message among those in order is one of the table, if it is one of the user.
  touched :
      (ls : List PrivateMessage) (ms : List PrivateMessage)
      → All (Stood none ls) (keep_rows (touches user_id) ms)
      → All (λ m. (touches user_id m ≡ false) ⊎ (any_row (stands_for m) ls ≡ true)) ms
  unfolding keep_rows
  touched ls [] a = tt
  touched ls (m ∷ ms) a = elim (Bool-cases (touches user_id m)) [
    | inl e ↦
        let b : Stood none ls m × All (Stood none ls) (keep_rows (touches user_id) ms) =
          rw e at a in
        (inr (Stood-none ls m b.0), touched ls ms b.1)
    | inr e ↦ (inl e, touched ls ms (rw e at a))
  ]

pub latest_per_partner_lem :
    (user_id : ℕ) (st : Stamp) (d : Database)
    → IsIncreasing user_id (latest_per_partner user_id st d)
      × All
          (λ m.
            (touches user_id m ≡ false)
            ⊎ (any_row (stands_for user_id m) (latest_per_partner user_id st d) ≡ true))
          d.messages
unfolding latest_per_partner scanned
latest_per_partner_lem user_id st d =
    let found = keep_rows (touches user_id) d.messages in
    let kept = scanned (λ m. m.id) st found in
    let o =
      order_rows-IsOrdered (by_partner user_id) (by_partner_asym user_id) (by_partner_later user_id)
        kept in
    let ls = first_of_partner user_id none (order_rows (by_partner user_id) kept) in
    (
      (firsts-IsIncreasing user_id none (order_rows (by_partner user_id) kept) o
          (every user_id _)).1,
      touched user_id ls d.messages (
          order_rows-All (Stood user_id none ls) (λ a b. st.tie a.id b.id) found
            (order_rows-All (Stood user_id none ls) (by_partner user_id) kept
              (firsts-Stood user_id none _ o))),
    )
