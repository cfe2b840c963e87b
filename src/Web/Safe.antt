-- ===== src/Web/Safe.antt =====
-- The routes of the method GET, apart from the view of a thread, leave the tables as they are.
use masonic_core.Prelude.{◌≡◌, refl, ◌≢◌, Bool, true, false}
use masonic_core.World.{Database}
use masonic_core.Web.Reads.{read_rules}
use masonic_core.Web.Answers.{answer_rules}
use masonic_core.Web.Rules.{Serves, handler_rules}
use masonic_core.Http.{Request, Server, Site}
use masonic_core.Http.Accounts
use masonic_core.Http.Groups
use masonic_core.Http.Threads
use masonic_core.Http.Posts
use masonic_core.Http.Media
use masonic_core.Http.Messages
use masonic_core.Http.Admin
use masonic_core.Http.Install
use masonic_core.Http.Probes
use masonic_core.Http.Live
use masonic_core.Web.Requests.{guarded-Serves}
use masonic_core.Http.Routes.{
  Route, guard, handler, serve, get, method, healthz, readyz, health, version, install_status,
  install_create, auth_register, auth_login, auth_refresh, auth_logout, auth_me, groups_list,
  groups_create, groups_update, groups_delete, groups_get, threads_list, threads_create,
  threads_get, threads_update, threads_delete, posts_list, posts_create, posts_update, posts_delete,
  media_avatar, media_attach, media_delete, media_serve, admin_users, admin_user, admin_settings,
  admin_set, admin_media, pms_inbox, pms_with, pms_send, pms_unread, pms_read, notes_list,
  notes_read, notes_read_all, presence_all, presence_one, live,
}

-- A view of a thread is counted.
abbrev pub only_reads : Route → Bool
only_reads threads_get = false
only_reads route = elim (method route) [ get ↦ true | _ ↦ false ]

reader-Serves :
    {P : Database → Type 0} (srv : Server) (route : Route) (r : Request)
    → only_reads route ≡ true
    → Serves srv P (handler srv route r)
unfolding handler Probes.health Probes.ready Probes.version Install.get_status Accounts.me
    Groups.list Groups.get Threads.list_by_group Posts.list_by_thread Media.serve Admin.list_users
    Admin.get_settings Admin.list_media Messages.inbox Messages.conversation Messages.unread_count
    Messages.notifications Messages.online Messages.presence Live.serve
reader-Serves srv healthz r e = search (handler_rules, answer_rules, read_rules) depth 16
reader-Serves srv readyz r e = search (handler_rules, answer_rules, read_rules) depth 16
reader-Serves srv health r e = search (handler_rules, answer_rules, read_rules) depth 16
reader-Serves srv version r e = search (handler_rules, answer_rules, read_rules) depth 16
reader-Serves srv install_status r e = search (handler_rules, answer_rules, read_rules) depth 16
reader-Serves srv install_create r e = cc
reader-Serves srv auth_register r e = cc
reader-Serves srv auth_login r e = cc
reader-Serves srv auth_refresh r e = cc
reader-Serves srv auth_logout r e = cc
reader-Serves srv auth_me r e = search (handler_rules, answer_rules, read_rules) depth 16
reader-Serves srv groups_list r e = search (handler_rules, answer_rules, read_rules) depth 16
reader-Serves srv groups_create r e = cc
reader-Serves srv groups_update r e = cc
reader-Serves srv groups_delete r e = cc
reader-Serves srv groups_get r e = search (handler_rules, answer_rules, read_rules) depth 16
reader-Serves srv threads_list r e = search (handler_rules, answer_rules, read_rules) depth 16
reader-Serves srv threads_create r e = cc
reader-Serves srv threads_get r e = cc
reader-Serves srv threads_update r e = cc
reader-Serves srv threads_delete r e = cc
reader-Serves srv posts_list r e = search (handler_rules, answer_rules, read_rules) depth 16
reader-Serves srv posts_create r e = cc
reader-Serves srv posts_update r e = cc
reader-Serves srv posts_delete r e = cc
reader-Serves srv media_avatar r e = cc
reader-Serves srv media_attach r e = cc
reader-Serves srv media_delete r e = cc
reader-Serves srv media_serve r e = search (handler_rules, answer_rules, read_rules) depth 16
reader-Serves srv admin_users r e = search (handler_rules, answer_rules, read_rules) depth 16
reader-Serves srv admin_user r e = cc
reader-Serves srv admin_settings r e = search (handler_rules, answer_rules, read_rules) depth 16
reader-Serves srv admin_set r e = cc
reader-Serves srv admin_media r e = search (handler_rules, answer_rules, read_rules) depth 16
reader-Serves srv pms_inbox r e = search (handler_rules, answer_rules, read_rules) depth 16
reader-Serves srv pms_with r e = search (handler_rules, answer_rules, read_rules) depth 16
reader-Serves srv pms_send r e = cc
reader-Serves srv pms_unread r e = search (handler_rules, answer_rules, read_rules) depth 16
reader-Serves srv pms_read r e = cc
reader-Serves srv notes_list r e = search (handler_rules, answer_rules, read_rules) depth 16
reader-Serves srv notes_read r e = cc
reader-Serves srv notes_read_all r e = cc
reader-Serves srv presence_all r e = search (handler_rules, answer_rules, read_rules) depth 16
reader-Serves srv presence_one r e = search (handler_rules, answer_rules, read_rules) depth 16
reader-Serves srv live r e = search (handler_rules, answer_rules, read_rules) depth 16

only_reads_lem :
    (route : Route) → method route ≡ get → route ≢ threads_get → only_reads route ≡ true
only_reads_lem healthz m t = refl
only_reads_lem readyz m t = refl
only_reads_lem health m t = refl
only_reads_lem version m t = refl
only_reads_lem install_status m t = refl
only_reads_lem install_create m t = cc
only_reads_lem auth_register m t = cc
only_reads_lem auth_login m t = cc
only_reads_lem auth_refresh m t = cc
only_reads_lem auth_logout m t = cc
only_reads_lem auth_me m t = refl
only_reads_lem groups_list m t = refl
only_reads_lem groups_create m t = cc
only_reads_lem groups_update m t = cc
only_reads_lem groups_delete m t = cc
only_reads_lem groups_get m t = refl
only_reads_lem threads_list m t = refl
only_reads_lem threads_create m t = cc
only_reads_lem threads_get m t = absurd (t refl)
only_reads_lem threads_update m t = cc
only_reads_lem threads_delete m t = cc
only_reads_lem posts_list m t = refl
only_reads_lem posts_create m t = cc
only_reads_lem posts_update m t = cc
only_reads_lem posts_delete m t = cc
only_reads_lem media_avatar m t = cc
only_reads_lem media_attach m t = cc
only_reads_lem media_delete m t = cc
only_reads_lem media_serve m t = refl
only_reads_lem admin_users m t = refl
only_reads_lem admin_user m t = cc
only_reads_lem admin_settings m t = refl
only_reads_lem admin_set m t = cc
only_reads_lem admin_media m t = refl
only_reads_lem pms_inbox m t = refl
only_reads_lem pms_with m t = refl
only_reads_lem pms_send m t = cc
only_reads_lem pms_unread m t = refl
only_reads_lem pms_read m t = cc
only_reads_lem notes_list m t = refl
only_reads_lem notes_read m t = cc
only_reads_lem notes_read_all m t = cc
only_reads_lem presence_all m t = refl
only_reads_lem presence_one m t = refl
only_reads_lem live m t = refl

-- A request for a route of the method GET, apart from the view of a thread, leaves every table as it
-- is: whatever it carries, whatever it is answered, and whatever fails on the way.
pub serve-reads :
    (srv : Server) (route : Route) (r : Request) (s : Site)
    → method route ≡ get
    → route ≢ threads_get
    → (serve srv route r s).1.world.db ≡ s.world.db
unfolding serve
serve-reads srv route r s m t =
    (guarded-Serves {P = λ d. d ≡ s.world.db} srv (guard route) (handler srv route) _
        (λ q. reader-Serves srv route q (only_reads_lem route m t))).db
      s refl
