-- ===== src/Store/Message.antt =====
-- internal/store/message.go: private messages
use masonic_core.Prelude.{
  ℕ, Bool, ◌&&◌, ◌||◌, not, Option, none, some, List, [], ◌∷◌, map, ltb, ◌==◌, if◌then◌else◌,
  length, find_row, any_row, keep_rows, count_rows, update_rows, order_rows, page, join_rows,
  is_none, has_value,
}
use masonic_core.Models.{User, PrivateMessage, NewPrivateMessage, PmConversation}
use masonic_core.World.{
  Database, unique_violation, foreign_key_violation, row_not_found, M, pure, ◌>>=◌, refuse_if,
  Stamp, scanned, rows, fault, Sql, statement,
}
use masonic_core.Store.Cascade.{has_user}

unfoldable pub new_row : Stamp → NewPrivateMessage → PrivateMessage
new_row st m = record {
  id = st.uuid;
  sender_id = m.sender_id;
  recipient_id = m.recipient_id;
  body = m.body;
  read_at = none;
  created_at = st.now;
}

unfoldable pub insert_message : NewPrivateMessage → Sql PrivateMessage
unfolding new_row
insert_message m st d =
    if any_row (λ r. r.id == st.uuid) d.messages
    then fault unique_violation
    else if not (has_user m.sender_id d) || not (has_user m.recipient_id d)
    then fault foreign_key_violation
    else rows (new_row st m) (record d { messages = new_row st m ∷ d.messages })

unfoldable pub send : NewPrivateMessage → M PrivateMessage
unfolding insert_message
send m = statement (insert_message m)

-- The WHERE of Conversation: one of the two wrote to the other.
unfoldable pub between : ℕ → ℕ → PrivateMessage → Bool
between a b m = m.sender_id == a && m.recipient_id == b || m.sender_id == b && m.recipient_id == a

-- The JOIN with a user, and the names that it adds.
unfoldable pub with_user : (PrivateMessage → ℕ) → List User → PrivateMessage → Option PmConversation
with_user f us m = elim (find_row (λ u. u.id == f m) us) [
  | none ↦ none
  | some u ↦
      some (record { message = m; sender_username = u.username; sender_display = u.display_name })
]

unfoldable pub older : PrivateMessage → PrivateMessage → Bool
older a b = ltb a.created_at b.created_at

unfoldable pub select_conversation : ℕ → ℕ → ℕ → ℕ → Sql (List PmConversation)
unfolding between with_user older scanned
select_conversation a b limit offset st d =
    rows
      (page limit offset (
        join_rows (with_user (λ m. m.sender_id) d.users)
          (order_rows older (scanned (λ m. m.id) st (keep_rows (between a b) d.messages)))))
      d

unfoldable pub count_conversation : ℕ → ℕ → Sql ℕ
unfolding between
count_conversation a b st d = rows (count_rows (between a b) d.messages) d

unfoldable pub conversation : ℕ → ℕ → ℕ → ℕ → M (List PmConversation × ℕ)
unfolding select_conversation count_conversation
conversation a b limit offset = do
  total ← statement (count_conversation a b)
  items ← statement (select_conversation a b limit offset)
  pure (items, total)

-- CASE WHEN sender_id = $1 THEN recipient_id ELSE sender_id END
unfoldable pub partner : ℕ → PrivateMessage → ℕ
partner user_id m = if m.sender_id == user_id then m.recipient_id else m.sender_id

abbrev pub touches : ℕ → PrivateMessage → Bool
touches user_id m = m.sender_id == user_id || m.recipient_id == user_id

-- ORDER BY partner, created_at DESC; of equal rows DISTINCT ON keeps the one that is scanned first.
unfoldable pub by_partner : ℕ → PrivateMessage → PrivateMessage → Bool
unfolding partner
by_partner user_id a b =
    ltb (partner user_id a) (partner user_id b)
    || partner user_id a == partner user_id b && ltb b.created_at a.created_at

-- DISTINCT ON (partner): the first of each run of rows with one partner.
unfoldable pub first_of_partner : ℕ → Option ℕ → List PrivateMessage → List PrivateMessage
unfolding partner
first_of_partner user_id last [] = []
first_of_partner user_id last (m ∷ ms) =
    let rest = first_of_partner user_id (some (partner user_id m)) ms in
    if has_value last (partner user_id m) then rest else m ∷ rest

unfoldable pub latest_per_partner : ℕ → Stamp → Database → List PrivateMessage
unfolding by_partner first_of_partner scanned
latest_per_partner user_id st d = first_of_partner user_id none (
    order_rows (by_partner user_id)
      (scanned (λ m. m.id) st (keep_rows (touches user_id) d.messages)))

unfoldable pub select_inbox : ℕ → ℕ → ℕ → Sql (List PmConversation)
unfolding latest_per_partner with_user
select_inbox user_id limit offset st d =
    rows
      (page limit offset
        (join_rows (with_user (partner user_id) d.users) (latest_per_partner user_id st d)))
      d

-- count(DISTINCT partner)
unfoldable pub count_partners : ℕ → Sql ℕ
unfolding latest_per_partner
count_partners user_id st d = rows (length (latest_per_partner user_id st d)) d

-- `c.RecipientID = userID`
unfoldable pub addressed_to : ℕ → PmConversation → PmConversation
addressed_to user_id c =
    let m = c.message in record c { message = record m { recipient_id = user_id } }

unfoldable pub inbox : ℕ → ℕ → ℕ → M (List PmConversation × ℕ)
unfolding count_partners select_inbox addressed_to
inbox user_id limit offset = do
  total ← statement (count_partners user_id)
  items ← statement (select_inbox user_id limit offset)
  pure (map (addressed_to user_id) items, total)

-- The rows that MarkRead updates.
unfoldable pub unread_of : ℕ → ℕ → PrivateMessage → Bool
unread_of id recipient_id m = m.id == id && (m.recipient_id == recipient_id && is_none m.read_at)

unfoldable pub update_read : ℕ → ℕ → Sql ℕ
unfolding unread_of
update_read id recipient_id st d =
    rows (count_rows (unread_of id recipient_id) d.messages) (record d {
      messages =
          update_rows (unread_of id recipient_id) (λ m. record m { read_at = some st.now })
            d.messages;
    })

unfoldable pub mark_read : ℕ → ℕ → M (Unit {0})
unfolding update_read
mark_read id recipient_id = do
  n ← statement (update_read id recipient_id)
  refuse_if (n == 0) row_not_found

abbrev pub unread : ℕ → PrivateMessage → Bool
unread user_id m = m.recipient_id == user_id && is_none m.read_at

unfoldable pub select_unread : ℕ → Sql ℕ
select_unread user_id st d = rows (count_rows (unread user_id) d.messages) d

unfoldable pub count_unread : ℕ → M ℕ
unfolding select_unread
count_unread user_id = statement (select_unread user_id)
