-- ===== src/Ws.antt =====
-- internal/ws/hub.go and client.go: the registry of connections, presence, and the delivery of
-- events. Each `..._locked` function is one critical section of the hub's mutex; the sends on
-- channels between them are steps of their own (Ws/Steps).
pub mod Registry
pub mod Presence
pub mod Steps
pub mod Sound
pub mod Safety
pub mod Writes
pub mod Refines
pub mod Drains
use masonic_core.Prelude.{
  ℕ, zero, suc, ◌+◌, ◌-◌, ◌*◌, ◌/◌, ◌%◌, ◌^◌, ◌≤◌, ◌<◌, ◌≡◌, refl, sym, ap, ◌∙◌, subst, ◌≢◌, ◌↔◌,
  ◌⊎◌, inl, inr, Bool, true, false, ◌&&◌, ◌||◌, not, Option, none, some, List, [], ◌∷◌, ◌++◌, map,
  reverse, arith, ltb, leb, ◌==◌, if◌then◌else◌, ==_iff, ==_refl, Bool-cases, Option-cases, length,
  take, drop, find_row, any_row, all_rows, keep_rows, count_rows, update_rows, insert_row,
  order_rows, page, join_rows, bind_option, is_none, has_value, All, ℤ, pos, negsuc, ltb_int,
}
use masonic_core.Text.{Text, text, text_eq, text_eq_iff, to_lower, has_prefix, has_byte, is_listed}
use masonic_core.Models.{
  status_active, status_banned, status_pending, role_admin, role_moderator, role_member, User,
  UserWithRoles, NewUser, Role, UserRole, Session, NewSession, Group, NewGroup, Thread,
  ThreadSummary, NewThread, Post, PostSummary, NewPost, PrivateMessage, NewPrivateMessage,
  PmConversation, Payload, empty_object, pm_payload, Notification, NewNotification, Attachment,
  NewAttachment, AttachmentWithOwner,
}
use masonic_core.World.{
  Setting, flag_value, text_value, Database, Claims, Env, World, Fault, unavailable,
  unique_violation, foreign_key_violation, out_of_range, bad_inet, bad_token, bad_json, bad_version,
  bad_parameters, bad_salt, bad_key, missing_role_keys, Error, row_not_found, row_conflict,
  invalid_credentials, invalid_refresh, user_not_active, user_not_found, username_taken,
  email_taken, already_installed, validation, not_found, group_not_found, thread_not_found,
  post_not_found, attachment_not_found, forbidden, invalid_input, conflict, thread_locked,
  not_empty, file_too_large, unsupported_type, failure, Outcome, ok, err, M, final, pure, raise,
  resume, handle, settled, ignore, continue, ◌>>=◌, ◌>>◌, refuse_if, is_not_found, is_conflict,
  missing_as, conflict_as, next, Stamp, stamp, Reply, rows, fault, Sql, settle, statement, commit,
  transaction, time_now, read_random, new_uuid,
}
use Registry.{Clients, member, add, remove, lookup, put, erase, conns_of, set_or_new}

pub data EventData : Type 0 where
  presence : (user_id : ℕ) → (online : Bool) → EventData
  pm : PrivateMessage → EventData
  notification : Notification → EventData

pub record Event : Type 0 where
  pub kind : Text
  pub payload : EventData

pub record Notify : Type 0 where
  pub user_id : ℕ
  pub event : Event

-- `clients`, `online` and the queue of `notifyCh`.
pub record Hub : Type 0 where
  pub clients : Clients
  pub online : List ℕ
  pub notify_ch : List Notify

-- The capacities of `notifyCh` and of a client's `send` channel.
abbrev pub notify_buffer : ℕ
notify_buffer = 256

abbrev pub send_buffer : ℕ
send_buffer = 64

abbrev pub new_hub : Hub
new_hub = record { clients = []; online = []; notify_ch = [] }

-- The critical section of `register`; whether the user was online before.
unfoldable pub register_locked : Hub → ℕ → ℕ → Hub × Bool
register_locked h id user_id = (
  record h {
    clients = put user_id (add id (set_or_new (lookup user_id h.clients))) h.clients;
    online = add user_id h.online;
  },
  member user_id h.online,
)

-- A set without the client goes when it is empty.
unfoldable pub shrink : ℕ → List ℕ → Clients → Clients
shrink user_id [] r = erase user_id r
shrink user_id (c ∷ cs) r = put user_id (c ∷ cs) r

unfoldable pub drop_client : ℕ → ℕ → Option (List ℕ) → Clients → Clients
unfolding shrink
drop_client id user_id none r = r
drop_client id user_id (some cs) r = shrink user_id (remove id cs) r

-- `!ok || len(conns) == 0`
abbrev pub has_none : Option (List ℕ) → Bool
has_none none = true
has_none (some []) = true
has_none (some (c ∷ cs)) = false

-- The critical section of `unregister`; whether the user went offline by it.
unfoldable pub unregister_locked : Hub → ℕ → ℕ → Hub × Bool
unfolding drop_client
unregister_locked h id user_id =
    let clients = drop_client id user_id (lookup user_id h.clients) h.clients in
    let gone = member user_id h.online && has_none (lookup user_id clients) in
    (
      record h { clients = clients; online = if gone then remove user_id h.online else h.online },
      gone,
    )

-- IsOnline
unfoldable pub is_online : Hub → ℕ → Bool
is_online h user_id = member user_id h.online

-- OnlineUsers, in no order that a caller can rely on.
unfoldable pub online_users : Hub → List ℕ
online_users h = h.online

-- broadcastPresence; the nil UUID stands for every client.
abbrev pub presence_notify : ℕ → Bool → Notify
presence_notify user_id online = record {
  user_id = 0;
  event = record { kind = text "presence"; payload = presence user_id online };
}

-- A send on `notifyCh`; `none` means that it has to wait.
unfoldable pub send_notify : Notify → Hub → Option Hub
send_notify n h =
    if ltb (length h.notify_ch) notify_buffer
    then some (record h { notify_ch = h.notify_ch ++ n ∷ [] })
    else none

-- `queue`: an event for a full buffer is dropped.
unfoldable pub queue : Event → List Event → List Event
queue ev buffer = if ltb (length buffer) send_buffer then buffer ++ ev ∷ [] else buffer
