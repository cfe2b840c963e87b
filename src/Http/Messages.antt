-- ===== src/Http/Messages.antt =====
-- message.go
use masonic_core.Prelude.{ℕ, Bool, true, false, ◌&&◌, [], ◌∷◌, ◌==◌, if◌then◌else◌}
use masonic_core.Text.{text}
use masonic_core.Models.{PrivateMessage, Notification}
use masonic_core.Services.Message
use masonic_core.Services.Notification
use masonic_core.Ws.{Event, Notify, pm, notification, is_online, online_users}
use masonic_core.Http.{
  Server, Action, Handler, Response, message_body, messages_body, notifications_body, counts_body,
  online_body, presence_body,
}
use masonic_core.Http.Answers.{
  reply, json, refusal, no_content, server_error, attempt, or_refuse, parsed, stop_if, core,
}
use masonic_core.Http.Input.{value_of, pagination, with_id, with_user}

-- h.hub.Notify: a send on `notifyCh`, which is taken when there is room. The handler goes on while it
-- waits, and two sends that wait may be taken in either order, where Notify holds the handler back:
-- this allows more orders than the code.
unfoldable pub notify : Notify → Action → Action
notify n good s = good (record s { system = record s.system { waiting = n ∷ s.system.waiting } })

abbrev pub to_user : ℕ → Event → Notify
to_user user_id event = record { user_id = user_id; event = event }

-- The two events of a message that arrives.
unfoldable pub announce : Bool → ℕ → PrivateMessage → Notification → Action → Action
unfolding notify
announce false recipient msg n good = good
announce true recipient msg n good =
    notify (to_user recipient (record { kind = text "pm"; payload = pm msg })) (
      notify (to_user recipient (record { kind = text "notification"; payload = notification n }))
        good)

unfoldable pub send : Server → Handler
unfolding announce
send srv r = with_user r λ user.
    or_refuse (srv.decoders.send_message_request r.payload)
      (refusal 400 (text "malformed_request") (text "Invalid request body"))
      λ req.
        stop_if (req.recipient_id == 0)
          (refusal 400 (text "invalid_id") (text "Invalid recipient id"))
          (attempt (Message.send user.id req.recipient_id req.body) core λ msg.
            attempt (Notification.on_private_message msg) (λ e. reply (server_error e))
              λ n.
                announce srv.has_hub req.recipient_id msg n (reply (json 201 (message_body msg))))

abbrev bad_partner : Response
bad_partner = refusal 400 (text "invalid_id") (text "Invalid 'with' query parameter")

unfoldable pub conversation : Handler
conversation r = with_user r λ user. parsed (value_of (text "with") r.query) bad_partner λ other.
    stop_if (other == 0) bad_partner (
      let (limit, offset) = pagination r in
      attempt (Message.conversation user.id other limit offset) core
        λ (items, total). reply (json 200 (messages_body items total limit offset)))

unfoldable pub inbox : Handler
inbox r = with_user r λ user.
    let (limit, offset) = pagination r in
    attempt (Message.inbox user.id limit offset) core
      λ (items, total). reply (json 200 (messages_body items total limit offset))

unfoldable pub mark_read : Handler
mark_read r = with_user r λ user.
    with_id r (text "messageID") (text "Invalid message id")
      λ id. attempt (Message.mark_read id user.id) core λ _. reply no_content

unfoldable pub unread_count : Handler
unread_count r = with_user r λ user. attempt (Message.unread_count user.id) core λ messages.
    attempt (Notification.unread_count user.id) core
      λ notifications. reply (json 200 (counts_body messages notifications))

unfoldable pub notifications : Handler
notifications r = with_user r λ user.
    let (limit, offset) = pagination r in
    attempt (Notification.list user.id limit offset) core
      λ (items, total). reply (json 200 (notifications_body items total limit offset))

unfoldable pub mark_notification_read : Handler
mark_notification_read r = with_user r λ user.
    with_id r (text "notificationID") (text "Invalid notification id")
      λ id. attempt (Notification.mark_read id user.id) core λ _. reply no_content

unfoldable pub mark_all_notifications_read : Handler
mark_all_notifications_read r = with_user r λ user.
    attempt (Notification.mark_all_read user.id) (λ e. reply (server_error e)) λ _. reply no_content

-- `h.hub == nil` answers as an empty hub does.
unfoldable pub online : Server → Handler
online srv r s = (json 200 (online_body (if srv.has_hub then online_users s.system.hub else [])), s)

unfoldable pub presence : Server → Handler
presence srv r =
    with_id r (text "userID") (text "Invalid user id")
      λ id s. (json 200 (presence_body id (srv.has_hub && is_online s.system.hub id)), s)
