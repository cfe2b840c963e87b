-- ===== src/Web/Reads.antt =====
-- The calls that leave the tables as they are keep whatever is said of them.
use masonic_core.Prelude.{ℕ, inl, inr, Option, none, some, arith, Bool-cases}
use masonic_core.Text.{Text}
use masonic_core.Models.{User}
use masonic_core.World.{
  Setting, flag_value, text_value, Database, World, Outcome, ok, err, M, final, is_not_found, next,
  time_now,
}
use masonic_core.World.Rules.{Keeps, keeps_rules, KeepsSql-read}
use masonic_core.Integrity.Calls.{get_group-Keeps, get_thread-Keeps}
use masonic_core.Config.{Config}
use masonic_core.Storage.{open_object, stat_object}
use masonic_core.Auth.Tokens
use masonic_core.Store.User
use masonic_core.Store.Settings
use masonic_core.Store.Group
use masonic_core.Store.Thread
use masonic_core.Store.Post
use masonic_core.Store.Attachment
use masonic_core.Store.Message
use masonic_core.Store.Notification
use masonic_core.Services.Auth as AuthService
use masonic_core.Services.Group as GroupService
use masonic_core.Services.Thread as ThreadService
use masonic_core.Services.Post as PostService
use masonic_core.Services.Message as MessageService
use masonic_core.Services.Notification as NotificationService
use masonic_core.Services.Admin as AdminService
use masonic_core.Services.Install as InstallService
use masonic_core.Services.Install.{as_flag, as_text, key_forum_name}
use masonic_core.Http.{Server}
use masonic_core.Http.Probes

module _ (P : Database → Type 0) where
  forum_name_keeps :
      (o : Outcome Setting) → P (final o).db → P (final (AdminService.forum_name_of o)).db
  unfolding AdminService.forum_name_of
  forum_name_keeps (ok (text_value t) w) h = h
  forum_name_keeps (ok (flag_value b) w) h = h
  forum_name_keeps (err e w) h = h

  got_or_keeps {ℓ} :
      {A : Type ℓ} (default : A) (read : Setting → M A) (o : Outcome Setting)
      → ((v : Setting) → Keeps P (read v))
      → P (final o).db
      → P (final (InstallService.got_or default read o)).db
  unfolding InstallService.got_or
  got_or_keeps default read (ok v w) k h = (k v).at w h
  got_or_keeps default read (err e w) k h = elim (Bool-cases (is_not_found e)) [
    | inl q ↦ rw q h
    | inr q ↦ rw q h
  ]

  or_bad_token_keeps {ℓ} :
      {A : Type ℓ} (o : Option A) (w : World) → P w.db → P (final (Tokens.or_bad_token o w)).db
  or_bad_token_keeps none w h = h
  or_bad_token_keeps (some a) w h = h

module _ {P : Database → Type 0} where
  pub list_groups-Keeps : Keeps P GroupService.list
  unfolding GroupService.list Group.list Group.select_groups
  list_groups-Keeps = search (keeps_rules, KeepsSql-read)

  pub get_group_view-Keeps : (id : ℕ) → Keeps P (GroupService.get id)
  unfolding GroupService.get
  get_group_view-Keeps id = search (keeps_rules, get_group-Keeps)

  rows_of_group-Keeps : (id limit offset : ℕ) → Keeps P (Thread.list_by_group id limit offset)
  unfolding Thread.list_by_group Thread.select_threads Thread.count_threads
  rows_of_group-Keeps id limit offset = search (keeps_rules, KeepsSql-read) depth 12

  pub list_threads-Keeps :
      (id limit offset : ℕ) → Keeps P (ThreadService.list_by_group id limit offset)
  unfolding ThreadService.list_by_group
  list_threads-Keeps id limit offset =
      search (keeps_rules, get_group-Keeps, rows_of_group-Keeps) depth 12

  rows_of_thread-Keeps : (id limit offset : ℕ) → Keeps P (Post.list_by_thread id limit offset)
  unfolding Post.list_by_thread Post.select_posts Post.count_posts
  rows_of_thread-Keeps id limit offset = search (keeps_rules, KeepsSql-read) depth 12

  pub list_posts-Keeps :
      (id limit offset : ℕ) → Keeps P (PostService.list_by_thread id limit offset)
  unfolding PostService.list_by_thread
  list_posts-Keeps id limit offset =
      search (keeps_rules, get_thread-Keeps, rows_of_thread-Keeps) depth 12

  pub conversation-Keeps :
      (a b limit offset : ℕ) → Keeps P (MessageService.conversation a b limit offset)
  unfolding MessageService.conversation Message.conversation Message.select_conversation
      Message.count_conversation
  conversation-Keeps a b limit offset = search (keeps_rules, KeepsSql-read) depth 12

  pub inbox-Keeps : (user_id limit offset : ℕ) → Keeps P (MessageService.inbox user_id limit offset)
  unfolding MessageService.inbox Message.inbox Message.select_inbox Message.count_partners
  inbox-Keeps user_id limit offset = search (keeps_rules, KeepsSql-read) depth 12

  pub unread_messages-Keeps : (user_id : ℕ) → Keeps P (MessageService.unread_count user_id)
  unfolding MessageService.unread_count Message.count_unread Message.select_unread
  unread_messages-Keeps user_id = search (keeps_rules, KeepsSql-read)

  pub notifications-Keeps :
      (user_id limit offset : ℕ) → Keeps P (NotificationService.list user_id limit offset)
  unfolding NotificationService.list Notification.list Notification.select_notifications
      Notification.count_notifications
  notifications-Keeps user_id limit offset = search (keeps_rules, KeepsSql-read) depth 12

  pub unread_notifications-Keeps :
      (user_id : ℕ) → Keeps P (NotificationService.unread_count user_id)
  unfolding NotificationService.unread_count Notification.count_unread Notification.select_unread
  unread_notifications-Keeps user_id = search (keeps_rules, KeepsSql-read)

  pub list_users-Keeps : (limit offset : ℕ) → Keeps P (AdminService.list_users limit offset)
  unfolding AdminService.list_users User.list User.count_users User.select_users
  list_users-Keeps limit offset = search (keeps_rules, KeepsSql-read) depth 12

  pub list_media-Keeps : (limit offset : ℕ) → Keeps P (AdminService.list_media limit offset)
  unfolding AdminService.list_media Attachment.list Attachment.count_attachments
      Attachment.select_attachments
  list_media-Keeps limit offset = search (keeps_rules, KeepsSql-read) depth 12

  scan_setting-Keeps : (o : Option Setting) → Keeps P (Settings.scan_setting o)
  unfolding Settings.scan_setting
  scan_setting-Keeps none = search keeps_rules
  scan_setting-Keeps (some v) = search keeps_rules

  get_setting-Keeps : (key : Text) → Keeps P (Settings.get key)
  unfolding Settings.get
  get_setting-Keeps key = search (keeps_rules, KeepsSql-read, scan_setting-Keeps)

  pub get_settings-Keeps : Keeps P AdminService.get_settings
  unfolding AdminService.get_settings
  get_settings-Keeps = record {
    at = λ w h.
        forum_name_keeps P (Settings.get key_forum_name w)
          ((get_setting-Keeps key_forum_name).at w h);
  }

  module _ {ℓ} {A : Type ℓ} where
    get_or-Keeps :
        (default : A) (key : Text) (read : Setting → M A)
        → ((v : Setting) → Keeps P (read v))
        → Keeps P (InstallService.get_or default key read)
    unfolding InstallService.get_or
    get_or-Keeps default key read k = record {
      at = λ w h.
          got_or_keeps P default read (Settings.get key w) k ((get_setting-Keeps key).at w h);
    }

  as_flag-Keeps : (v : Setting) → Keeps P (as_flag v)
  as_flag-Keeps (flag_value b) = search keeps_rules
  as_flag-Keeps (text_value t) = search keeps_rules

  as_text-Keeps : (v : Setting) → Keeps P (as_text v)
  as_text-Keeps (flag_value b) = search keeps_rules
  as_text-Keeps (text_value t) = search keeps_rules

  pub status-Keeps : Keeps P InstallService.status
  unfolding InstallService.status
  status-Keeps = search (keeps_rules, get_or-Keeps, as_flag-Keeps, as_text-Keeps) depth 12

  pub scan_one-Keeps : (o : Option User) → Keeps P (User.scan_one o)
  unfolding User.scan_one
  scan_one-Keeps none = search keeps_rules
  scan_one-Keeps (some u) = search keeps_rules

  pub get_user-Keeps : (id : ℕ) → Keeps P (User.get_by_id id)
  unfolding User.get_by_id User.select_user
  get_user-Keeps id = search (keeps_rules, KeepsSql-read, scan_one-Keeps)

  pub roles-Keeps : (id : ℕ) → Keeps P (User.roles_for_user id)
  unfolding User.roles_for_user User.select_roles
  roles-Keeps id = search (keeps_rules, KeepsSql-read)

  pub profile-Keeps : (id : ℕ) → Keeps P (AuthService.profile id)
  unfolding AuthService.profile
  profile-Keeps id = search (keeps_rules, get_user-Keeps, roles-Keeps) depth 12

  pub ping-Keeps : Keeps P Probes.ping
  unfolding Probes.ping
  ping-Keeps = search (keeps_rules, KeepsSql-read)

  pub schema-Keeps : (srv : Server) → Keeps P (Probes.schema_version srv)
  unfolding Probes.schema_version
  schema-Keeps srv = search (keeps_rules, KeepsSql-read)

  pub open-Keeps : (key : Text) → Keeps P (open_object key)
  unfolding open_object
  open-Keeps key = search keeps_rules

  pub stat-Keeps : (key : Text) → Keeps P (stat_object key)
  unfolding stat_object
  stat-Keeps key = record { at = λ w h. ground arith }

  pub parse-Keeps : (cfg : Config) (raw : Text) → Keeps P (Tokens.parse cfg raw)
  unfolding Tokens.parse time_now
  parse-Keeps cfg raw = record {
    at = λ w h.
        or_bad_token_keeps P
          (w.env.open_token cfg.jwt_secret cfg.jwt_issuer (w.env.clock w.calls) raw) (next w) h;
  }

pub ruleset read_rules = (
  list_groups-Keeps, get_group_view-Keeps, list_threads-Keeps, list_posts-Keeps, conversation-Keeps,
  inbox-Keeps, unread_messages-Keeps, notifications-Keeps, unread_notifications-Keeps,
  list_users-Keeps, list_media-Keeps, get_settings-Keeps, status-Keeps, profile-Keeps, ping-Keeps,
  schema-Keeps, open-Keeps, stat-Keeps, parse-Keeps,
)
