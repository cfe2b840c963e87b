-- ===== src/Web/Writes.antt =====
-- The calls on avatars, settings, members, messages and notifications keep the references of the
-- forum.
use masonic_core.Prelude.{ℕ, Option, none, some, List, [], ◌∷◌}
use masonic_core.Text.{Text}
use masonic_core.Models.{PrivateMessage}
use masonic_core.World.{Setting}
use masonic_core.World.Rules.{Keeps, keeps_rules}
use masonic_core.Integrity.{HasRefs}
use masonic_core.Integrity.Calls.{upload-Keeps}
use masonic_core.Web.Frames.{elsewhere_rules}
use masonic_core.Web.Reads.{scan_one-Keeps, get_user-Keeps, roles-Keeps, status-Keeps}
use masonic_core.Config.{Config}
use masonic_core.Store.User
use masonic_core.Store.Settings
use masonic_core.Store.Message
use masonic_core.Store.Notification
use masonic_core.Services.Media as MediaService
use masonic_core.Services.Message as MessageService
use masonic_core.Services.Notification as NotificationService
use masonic_core.Services.Admin as AdminService
use masonic_core.Services.Install as InstallService
use masonic_core.Services.Install.{InstallInput}
use masonic_core.Web.Entries.{
  hash-Keeps, avatar_key-Keeps, create_user-Keeps, assign-Keeps, add_member-Keeps, register-Keeps,
  login-Keeps, refresh-Keeps, logout-Keeps,
}

update_avatar-Keeps : (id : ℕ) (url : Text) → Keeps HasRefs (User.update_avatar id url)
unfolding User.update_avatar
update_avatar-Keeps id url = search (keeps_rules, elsewhere_rules, scan_one-Keeps) depth 12

pub upload_avatar-Keeps :
    (cfg : Config) (user_id : ℕ) (filename content_type : Text) (size : ℕ)
    → Keeps HasRefs (MediaService.upload_avatar cfg user_id filename content_type size)
unfolding MediaService.upload_avatar
upload_avatar-Keeps cfg user_id filename content_type size =
    search (keeps_rules, avatar_key-Keeps, upload-Keeps, update_avatar-Keeps) depth 16

set-Keeps : (key : Text) (v : Setting) → Keeps HasRefs (Settings.set key v)
unfolding Settings.set
set-Keeps key v = search (keeps_rules, elsewhere_rules)

pub update_settings-Keeps : (name : Text) → Keeps HasRefs (AdminService.update_settings name)
unfolding AdminService.update_settings AdminService.set_forum_name
update_settings-Keeps name = search (keeps_rules, set-Keeps) depth 12

update_status-Keeps : (id : ℕ) (status : Text) → Keeps HasRefs (User.update_status id status)
unfolding User.update_status
update_status-Keeps id status = search (keeps_rules, elsewhere_rules, scan_one-Keeps) depth 12

change_status-Keeps : (id : ℕ) (o : Option Text) → Keeps HasRefs (AdminService.change_status id o)
unfolding AdminService.change_status
change_status-Keeps id none = search keeps_rules
change_status-Keeps id (some s) = search (keeps_rules, update_status-Keeps) depth 12

add_roles-Keeps : (id : ℕ) (ks : List Text) → Keeps HasRefs (User.add_roles id ks)
unfolding User.add_roles
add_roles-Keeps id [] = search keeps_rules
add_roles-Keeps id (k ∷ ks) = search (keeps_rules, elsewhere_rules) depth 12

update_roles-Keeps : (id : ℕ) (ks : List Text) → Keeps HasRefs (User.update_roles id ks)
unfolding User.update_roles
update_roles-Keeps id ks = search (keeps_rules, elsewhere_rules, add_roles-Keeps) depth 12

change_roles-Keeps :
    (id : ℕ) (o : Option (List Text)) → Keeps HasRefs (AdminService.change_roles id o)
unfolding AdminService.change_roles
change_roles-Keeps id none = search keeps_rules
change_roles-Keeps id (some rs) = search (keeps_rules, update_roles-Keeps) depth 12

pub update_user-Keeps :
    (id : ℕ) (rs : Option (List Text)) (status : Option Text)
    → Keeps HasRefs (AdminService.update_user id rs status)
unfolding AdminService.update_user
update_user-Keeps id rs status =
    search (keeps_rules, change_status-Keeps, change_roles-Keeps, get_user-Keeps, roles-Keeps) depth
      16

pub setup-Keeps : (input : InstallInput) → Keeps HasRefs (InstallService.setup input)
unfolding InstallService.setup InstallService.install
setup-Keeps input =
    search
      (
        keeps_rules, status-Keeps, hash-Keeps, create_user-Keeps, add_member-Keeps, assign-Keeps,
        set-Keeps,
      )
      depth 24

pub send-Keeps :
    (sender recipient : ℕ) (body : Text) → Keeps HasRefs (MessageService.send sender recipient body)
unfolding MessageService.send MessageService.send_trimmed Message.send
send-Keeps sender recipient body = search (keeps_rules, elsewhere_rules, get_user-Keeps) depth 16

pub mark_message-Keeps : (id recipient : ℕ) → Keeps HasRefs (MessageService.mark_read id recipient)
unfolding MessageService.mark_read Message.mark_read
mark_message-Keeps id recipient = search (keeps_rules, elsewhere_rules) depth 12

pub on_message-Keeps :
    (msg : PrivateMessage) → Keeps HasRefs (NotificationService.on_private_message msg)
unfolding NotificationService.on_private_message Notification.create
on_message-Keeps msg = search (keeps_rules, elsewhere_rules)

pub mark_notification-Keeps :
    (id user_id : ℕ) → Keeps HasRefs (NotificationService.mark_read id user_id)
unfolding NotificationService.mark_read Notification.mark_read
mark_notification-Keeps id user_id = search (keeps_rules, elsewhere_rules) depth 12

pub mark_all-Keeps : (user_id : ℕ) → Keeps HasRefs (NotificationService.mark_all_read user_id)
unfolding NotificationService.mark_all_read Notification.mark_all_read
mark_all-Keeps user_id = search (keeps_rules, elsewhere_rules) depth 12

pub ruleset write_rules = (
  register-Keeps, login-Keeps, refresh-Keeps, logout-Keeps, upload_avatar-Keeps,
  update_settings-Keeps, update_user-Keeps, setup-Keeps, send-Keeps, mark_message-Keeps,
  on_message-Keeps, mark_notification-Keeps, mark_all-Keeps,
)
