-- ===== src/Services/Notification.antt =====
-- internal/services/message.go: notifications
use masonic_core.Prelude.{ℕ, some, List, [], ◌∷◌, ◌++◌, leb, if◌then◌else◌, length, take}
use masonic_core.Text.{Text, text}
use masonic_core.Models.{PrivateMessage, pm_payload, Notification}
use masonic_core.World.{not_found, M, handle, missing_as}
use masonic_core.Store.Notification

-- maxPreview
abbrev pub max_preview : ℕ
max_preview = 80

-- The three bytes of the ellipsis.
abbrev pub ellipsis : Text
ellipsis = 0xE2 ∷ 0x80 ∷ 0xA6 ∷ []

unfoldable pub preview : Text → Text
preview s = if leb (length s) max_preview then s else take max_preview s ++ ellipsis

unfoldable pub on_private_message : PrivateMessage → M Notification
unfolding preview
on_private_message msg = Notification.create (record {
  user_id = msg.recipient_id;
  kind = text "pm";
  payload = some (pm_payload msg.id msg.sender_id (preview msg.body));
})

unfoldable pub list : ℕ → ℕ → ℕ → M (List Notification × ℕ)
list user_id limit offset = Notification.list user_id limit offset

unfoldable pub mark_read : ℕ → ℕ → M (Unit {0})
mark_read id user_id = handle (Notification.mark_read id user_id) (missing_as not_found)

unfoldable pub mark_all_read : ℕ → M (Unit {0})
mark_all_read user_id = Notification.mark_all_read user_id

unfoldable pub unread_count : ℕ → M ℕ
unread_count user_id = Notification.count_unread user_id
