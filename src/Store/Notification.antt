-- ===== src/Store/Notification.antt =====
-- internal/store/message.go: notifications
use masonic_core.Prelude.{
  ℕ, Bool, ◌&&◌, not, Option, none, some, List, ◌∷◌, ltb, ◌==◌, if◌then◌else◌, any_row, keep_rows,
  count_rows, update_rows, order_rows, page, is_none,
}
use mathlib.Core.Option
use masonic_core.Models.{Payload, empty_object, pm_payload, Notification, NewNotification}
use masonic_core.World.{
  unique_violation, foreign_key_violation, row_not_found, M, pure, ◌>>=◌, refuse_if, Stamp, scanned,
  bad_jsonb, rows, fault, Sql, statement,
}
use masonic_core.Store.Cascade.{has_user}

-- A nil payload is stored as `{}`.
abbrev pub payload_or_empty : Option Payload → Payload
payload_or_empty none = empty_object
payload_or_empty (some p) = p

-- The value of the `jsonb` column, if it takes the payload.
unfoldable pub jsonb_payload : Stamp → Payload → Option Payload
jsonb_payload st empty_object = some empty_object
jsonb_payload st (pm_payload message_id sender_id preview) =
    Option.map (pm_payload message_id sender_id) (st.jsonb preview)

unfoldable pub new_row : Stamp → NewNotification → Payload → Notification
new_row st n payload = record {
  id = st.uuid;
  user_id = n.user_id;
  kind = n.kind;
  payload = payload;
  read_at = none;
  created_at = st.now;
}

-- The INSERT, with the payload read.
unfoldable pub insert_with : NewNotification → Option Payload → Sql Notification
unfolding new_row
insert_with n none st d = fault bad_jsonb
insert_with n (some payload) st d =
    if any_row (λ r. r.id == st.uuid) d.notifications
    then fault unique_violation
    else if not (has_user n.user_id d)
    then fault foreign_key_violation
    else rows (new_row st n payload)
        (record d { notifications = new_row st n payload ∷ d.notifications })

unfoldable pub insert_notification : NewNotification → Sql Notification
unfolding insert_with jsonb_payload
insert_notification n st d = insert_with n (jsonb_payload st (payload_or_empty n.payload)) st d

unfoldable pub create : NewNotification → M Notification
unfolding insert_notification
create n = statement (insert_notification n)

newer : Notification → Notification → Bool
newer a b = ltb b.created_at a.created_at

unfoldable pub select_notifications : ℕ → ℕ → ℕ → Sql (List Notification)
unfolding newer scanned
select_notifications user_id limit offset st d =
    rows
      (page limit offset (
        order_rows newer
          (scanned (λ n. n.id) st (keep_rows (λ n. n.user_id == user_id) d.notifications))))
      d

unfoldable pub count_notifications : ℕ → Sql ℕ
count_notifications user_id st d = rows (count_rows (λ n. n.user_id == user_id) d.notifications) d

unfoldable pub list : ℕ → ℕ → ℕ → M (List Notification × ℕ)
unfolding select_notifications count_notifications
list user_id limit offset = do
  total ← statement (count_notifications user_id)
  items ← statement (select_notifications user_id limit offset)
  pure (items, total)

abbrev pub unread : ℕ → Notification → Bool
unread user_id n = n.user_id == user_id && is_none n.read_at

unfoldable pub update_read : (Notification → Bool) → Sql ℕ
update_read p st d = rows (count_rows p d.notifications) (record d {
  notifications = update_rows p (λ n. record n { read_at = some st.now }) d.notifications;
})

unfoldable pub mark_read : ℕ → ℕ → M (Unit {0})
unfolding update_read
mark_read id user_id = do
  n ← statement (update_read (λ r. r.id == id && unread user_id r))
  refuse_if (n == 0) row_not_found

unfoldable pub mark_all_read : ℕ → M (Unit {0})
unfolding update_read
mark_all_read user_id = do _ ← statement (update_read (unread user_id)); pure tt

unfoldable pub select_unread : ℕ → Sql ℕ
select_unread user_id st d = rows (count_rows (unread user_id) d.notifications) d

unfoldable pub count_unread : ℕ → M ℕ
unfolding select_unread
count_unread user_id = statement (select_unread user_id)
