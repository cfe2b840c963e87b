-- ===== src/Inbox/Latest.antt =====
-- The inbox shows each partner of a user once, with the latest message: internal/store/message.go,
-- Inbox.
use masonic_core.Prelude.{All-Mem}
use masonic_core.Prelude.{
  ℕ, ◌≡◌, refl, ◌⊎◌, inl, inr, Bool, true, false, ◌&&◌, ◌||◌, Option, none, some, List, [], ◌∷◌,
  arith, leb, ◌==◌, ==_iff, Bool-cases, any_row, has_value, All, All-imp, All-keep, All-order_rows,
}
use mathlib.Core.List.{Mem}
use masonic_core.Models.{PrivateMessage}
use masonic_core.World.{Database, Stamp, scanned}
use masonic_core.Store.Message.{partner, touches, by_partner, first_of_partner, latest_per_partner}
use masonic_core.Inbox.Partners.{IsIncreasing, stands_for, latest_per_partner_lem}

-- Two messages between the same two users, the second not older than the first.
abbrev pub supersedes : PrivateMessage → PrivateMessage → Bool
supersedes m l =
    ((l.sender_id == m.sender_id && l.recipient_id == m.recipient_id)
      || (l.sender_id == m.recipient_id && l.recipient_id == m.sender_id))
    && leb m.created_at l.created_at

-- A message that the user sent or received, out of a list.
abbrev pub IsOwn : ℕ → List PrivateMessage → PrivateMessage → Type 0
IsOwn user_id ms m = ((m.sender_id ≡ user_id) ⊎ (m.recipient_id ≡ user_id)) × Mem m ms

own :
    (user_id : ℕ) (m : PrivateMessage)
    → touches user_id m ≡ true
    → (m.sender_id ≡ user_id) ⊎ (m.recipient_id ≡ user_id)
own user_id m h = elim (Bool-cases (m.sender_id == user_id)) [
  | inl e ↦ inl ((==_iff m.sender_id user_id).0 e)
  | inr e ↦ inr (ground (arith, ==_iff m.recipient_id user_id))
]

All-first_of_partner :
    (P : PrivateMessage → Type 0) (user_id : ℕ) (last : Option ℕ) (ms : List PrivateMessage)
    → All P ms
    → All P (first_of_partner user_id last ms)
unfolding first_of_partner
All-first_of_partner P user_id last [] a = tt
All-first_of_partner P user_id last (m ∷ ms) (p, a) =
    let rest = All-first_of_partner P user_id (some (partner user_id m)) ms a in
    elim (Bool-cases (has_value last (partner user_id m))) [
      | inl e ↦ rw e rest
      | inr e ↦ rw e (p, rest)
    ]

rows-IsOwn :
    (user_id : ℕ) (st : Stamp) (d : Database)
    → All (IsOwn user_id d.messages) (latest_per_partner user_id st d)
unfolding latest_per_partner scanned
rows-IsOwn user_id st d =
    let P : PrivateMessage → Type 0 = IsOwn user_id d.messages in
    All-first_of_partner P user_id none _ (
      All-order_rows P (by_partner user_id) _ (
        All-order_rows P (λ a b. st.tie a.id b.id) _
          (All-keep (λ m. Mem m d.messages) P (touches user_id) (λ m e h. (own user_id m e, h))
            d.messages (All-Mem d.messages))))

same_pair :
    (user_id : ℕ) (m l : PrivateMessage)
    → touches user_id m ≡ true
    → touches user_id l ≡ true
    → stands_for user_id m l ≡ true
    → supersedes m l ≡ true
unfolding partner
same_pair user_id m l h g e = ground arith

any-supersedes :
    (user_id : ℕ) (m : PrivateMessage) (ls : List PrivateMessage)
    → touches user_id m ≡ true
    → All (λ l. touches user_id l ≡ true) ls
    → any_row (stands_for user_id m) ls ≡ true
    → any_row (supersedes m) ls ≡ true
unfolding any_row
any-supersedes user_id m [] h a e = cc
any-supersedes user_id m (l ∷ ls) h (g, a) e = elim (Bool-cases (stands_for user_id m l)) [
  | inl b ↦ rw (same_pair user_id m l h g b) refl
  | inr b ↦
      let rest = any-supersedes user_id m ls h a (rw b at e) in
      elim (Bool-cases (supersedes m l)) [ inl c ↦ rw c refl | inr c ↦ rw c rest ]
]

touches-own :
    (user_id : ℕ) (m : PrivateMessage)
    → (m.sender_id ≡ user_id) ⊎ (m.recipient_id ≡ user_id)
    → touches user_id m ≡ true
touches-own user_id m (inl e) = ground (arith, ==_iff m.sender_id user_id)
touches-own user_id m (inr e) = ground (arith, ==_iff m.recipient_id user_id)

superseded :
    (user_id : ℕ) (ls : List PrivateMessage) (m : PrivateMessage)
    → All (λ l. touches user_id l ≡ true) ls
    → (touches user_id m ≡ false) ⊎ (any_row (stands_for user_id m) ls ≡ true)
    → (m.sender_id ≡ user_id) ⊎ (m.recipient_id ≡ user_id)
    → any_row (supersedes m) ls ≡ true
superseded user_id ls m a (inl e) h = let g = touches-own user_id m h in cc
superseded user_id ls m a (inr e) h = any-supersedes user_id m ls (touches-own user_id m h) a e

-- The rows of an inbox, before the page is cut, whatever the order in which equal rows are scanned: they are messages of the table that the user sent or
-- received. They come in the order of the partners' identifiers, each partner once, and not newest
-- first. For every message of the table that the user sent or received there is a row with a message
-- between the same two users that is not older.
pub inbox_latest :
    (user_id : ℕ) (st : Stamp) (d : Database)
    → All
        (λ l. ((l.sender_id ≡ user_id) ⊎ (l.recipient_id ≡ user_id)) × Mem l d.messages)
        (latest_per_partner user_id st d)
      × IsIncreasing user_id (latest_per_partner user_id st d)
      × All
          (λ m.
            (m.sender_id ≡ user_id) ⊎ (m.recipient_id ≡ user_id)
            → any_row (supersedes m) (latest_per_partner user_id st d) ≡ true)
          d.messages
inbox_latest user_id st d =
    let rows = rows-IsOwn user_id st d in
    let (inc, all) = latest_per_partner_lem user_id st d in
    let mine =
      All-imp (IsOwn user_id d.messages) (λ l. touches user_id l ≡ true)
        (λ l h. touches-own user_id l h.0) _ rows in
    (rows, inc, All-imp _ _ (λ m h. superseded user_id _ m mine h) d.messages all)
