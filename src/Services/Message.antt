-- ===== src/Services/Message.antt =====
-- internal/services/message.go: private messages
use masonic_core.Prelude.{ℕ, ◌||◌, List, ltb, ◌==◌}
use masonic_core.Text.{Text}
use masonic_core.Models.{PrivateMessage, PmConversation}
use masonic_core.World.{
  user_not_found, not_found, invalid_input, M, handle, ◌>>=◌, ◌>>◌, refuse_if, missing_as,
}
use masonic_core.Text.Space.{trim_space}
use masonic_core.Text.Runes.{rune_count}
use masonic_core.Config.{is_empty}
use masonic_core.Store.User
use masonic_core.Store.Message

-- maxPMBodyLength
abbrev pub max_pm_body_length : ℕ
max_pm_body_length = 10000

-- Send, past the trimming of the body.
unfoldable pub send_trimmed : ℕ → ℕ → Text → M PrivateMessage
send_trimmed sender recipient body = do
  refuse_if (is_empty body || ltb max_pm_body_length (rune_count body)) invalid_input
  _ ← handle (User.get_by_id recipient) (missing_as user_not_found)
  Message.send (record { sender_id = sender; recipient_id = recipient; body = body })

unfoldable pub send : ℕ → ℕ → Text → M PrivateMessage
unfolding send_trimmed
send sender recipient body = do
  refuse_if (sender == recipient) invalid_input
  send_trimmed sender recipient (trim_space body)

unfoldable pub conversation : ℕ → ℕ → ℕ → ℕ → M (List PmConversation × ℕ)
conversation a b limit offset = Message.conversation a b limit offset

unfoldable pub inbox : ℕ → ℕ → ℕ → M (List PmConversation × ℕ)
inbox user_id limit offset = Message.inbox user_id limit offset

unfoldable pub mark_read : ℕ → ℕ → M (Unit {0})
mark_read id recipient = handle (Message.mark_read id recipient) (missing_as not_found)

unfoldable pub unread_count : ℕ → M ℕ
unread_count user_id = Message.count_unread user_id
