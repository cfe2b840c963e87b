-- ===== src/Http/Routes.antt =====
-- internal/http/router.go: the routes, the guards of the group that each is in, and its handler. The
-- match of a path with a pattern is chi's: a request comes with its route and the parameters.
use masonic_core.Prelude.{none, [], ◌∷◌}
use masonic_core.Models.{role_admin}
use masonic_core.Http.{Server, Handler}
use masonic_core.Http.Gate.{require_auth, require_role}
use masonic_core.Http.Accounts
use masonic_core.Http.Groups
use masonic_core.Http.Threads
use masonic_core.Http.Posts
use masonic_core.Http.Media
use masonic_core.Http.Messages
use masonic_core.Http.Admin
use masonic_core.Http.Install
use masonic_core.Http.Probes
use masonic_core.Http.Live

pub data Route : Type 0 where
  healthz readyz health version : Route
  install_status install_create : Route
  auth_register auth_login auth_refresh auth_logout auth_me : Route
  groups_list groups_create groups_update groups_delete groups_get : Route
  threads_list threads_create threads_get threads_update threads_delete : Route
  posts_list posts_create posts_update posts_delete : Route
  media_avatar media_attach media_delete media_serve : Route
  admin_users admin_user admin_settings admin_set admin_media : Route
  pms_inbox pms_with pms_send pms_unread pms_read : Route
  notes_list notes_read notes_read_all : Route
  presence_all presence_one : Route
  live : Route

pub data Method : Type 0 where
  get post patch put delete : Method

abbrev pub method : Route → Method
method install_create = post
method auth_register = post
method auth_login = post
method auth_refresh = post
method auth_logout = post
method groups_create = post
method groups_update = patch
method groups_delete = delete
method threads_create = post
method threads_update = patch
method threads_delete = delete
method posts_create = post
method posts_update = patch
method posts_delete = delete
method media_avatar = post
method media_attach = post
method media_delete = delete
method admin_user = patch
method admin_set = put
method pms_send = post
method pms_read = patch
method notes_read = patch
method notes_read_all = patch
method _ = get

-- r.Use of the group: no guard, RequireAuth, or RequireAuth and RequireRole(models.RoleAdmin).
pub data Guard : Type 0 where
  anyone signed_in admin : Guard

abbrev pub guard : Route → Guard
guard auth_me = signed_in
guard groups_create = admin
guard groups_update = admin
guard groups_delete = admin
guard threads_create = signed_in
guard threads_update = signed_in
guard threads_delete = signed_in
guard posts_create = signed_in
guard posts_update = signed_in
guard posts_delete = signed_in
guard media_avatar = signed_in
guard media_attach = signed_in
guard media_delete = signed_in
guard admin_users = admin
guard admin_user = admin
guard admin_settings = admin
guard admin_set = admin
guard admin_media = admin
guard pms_inbox = signed_in
guard pms_with = signed_in
guard pms_send = signed_in
guard pms_unread = signed_in
guard pms_read = signed_in
guard notes_list = signed_in
guard notes_read = signed_in
guard notes_read_all = signed_in
guard _ = anyone

unfoldable pub handler : Server → Route → Handler
handler srv healthz = Probes.health
handler srv readyz = Probes.ready
handler srv health = Probes.health
handler srv version = Probes.version srv
handler srv install_status = Install.get_status
handler srv install_create = Install.create srv
handler srv auth_register = Accounts.register srv
handler srv auth_login = Accounts.login srv
handler srv auth_refresh = Accounts.refresh srv
handler srv auth_logout = Accounts.logout srv
handler srv auth_me = Accounts.me
handler srv groups_list = Groups.list
handler srv groups_create = Groups.create srv
handler srv groups_update = Groups.update srv
handler srv groups_delete = Groups.delete
handler srv groups_get = Groups.get
handler srv threads_list = Threads.list_by_group
handler srv threads_create = Threads.create srv
handler srv threads_get = Threads.get
handler srv threads_update = Threads.update srv
handler srv threads_delete = Threads.delete
handler srv posts_list = Posts.list_by_thread
handler srv posts_create = Posts.create srv
handler srv posts_update = Posts.update srv
handler srv posts_delete = Posts.delete
handler srv media_avatar = Media.upload_avatar srv
handler srv media_attach = Media.upload_attachment srv
handler srv media_delete = Media.delete_attachment
handler srv media_serve = Media.serve srv
handler srv admin_users = Admin.list_users
handler srv admin_user = Admin.update_user srv
handler srv admin_settings = Admin.get_settings
handler srv admin_set = Admin.update_settings srv
handler srv admin_media = Admin.list_media
handler srv pms_inbox = Messages.inbox
handler srv pms_with = Messages.conversation
handler srv pms_send = Messages.send srv
handler srv pms_unread = Messages.unread_count
handler srv pms_read = Messages.mark_read
handler srv notes_list = Messages.notifications
handler srv notes_read = Messages.mark_notification_read
handler srv notes_read_all = Messages.mark_all_notifications_read
handler srv presence_all = Messages.online srv
handler srv presence_one = Messages.presence srv
handler srv live = Live.serve srv

unfoldable pub guarded : Server → Guard → Handler → Handler
guarded srv anyone h = h
guarded srv signed_in h = require_auth srv h
guarded srv admin h = require_auth srv (require_role (role_admin ∷ []) h)

-- A request comes without a user in its context.
unfoldable pub serve : Server → Route → Handler
unfolding guarded handler
serve srv route r = guarded srv (guard route) (handler srv route) (record r { user = none })
