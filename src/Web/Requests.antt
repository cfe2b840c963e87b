-- ===== src/Web/Requests.antt =====
-- Every route: what its handler does to the tables, and what a history of requests does to them.
use masonic_core.Prelude.{◌≡◌, Option, none, some, [], ◌∷◌}
use masonic_core.Text.{Text}
use masonic_core.Models.{role_admin}
use masonic_core.World.{Database}
use masonic_core.World.Rules.{Keeps, keeps_rules}
use masonic_core.Integrity.{HasRefs}
use masonic_core.Integrity.Calls.{call_rules}
use masonic_core.Web.Reads.{read_rules}
use masonic_core.Web.Writes.{write_rules}
use masonic_core.Web.Answers.{IsAnswer, answer_rules}
use masonic_core.Ws.Steps.{System, Step, Reach, after}
use masonic_core.Web.Rules.{Serves, handler_rules, Serves-require_auth, Serves-require_role}
use masonic_core.Http.{Request, Server, Site, Handler}
use masonic_core.Http.Accounts
use masonic_core.Http.Groups
use masonic_core.Http.Threads
use masonic_core.Http.Posts
use masonic_core.Http.Media
use masonic_core.Http.Messages
use masonic_core.Http.Admin
use masonic_core.Http.Install
use masonic_core.Http.Probes
use masonic_core.Http.Live
use masonic_core.Http.Routes.{
  Route, Guard, anyone, signed_in, admin, guard, handler, guarded, serve, healthz, readyz, health,
  version, install_status, install_create, auth_register, auth_login, auth_refresh, auth_logout,
  auth_me, groups_list, groups_create, groups_update, groups_delete, groups_get, threads_list,
  threads_create, threads_get, threads_update, threads_delete, posts_list, posts_create,
  posts_update, posts_delete, media_avatar, media_attach, media_delete, media_serve, admin_users,
  admin_user, admin_settings, admin_set, admin_media, pms_inbox, pms_with, pms_send, pms_unread,
  pms_read, notes_list, notes_read, notes_read_all, presence_all, presence_one, live,
}

end_session-Keeps : (o : Option Text) → Keeps HasRefs (Accounts.end_session o)
unfolding Accounts.end_session
end_session-Keeps none = search keeps_rules
end_session-Keeps (some []) = search keeps_rules
end_session-Keeps (some (c ∷ token)) = search (keeps_rules, write_rules)

ruleset route_rules =
    (handler_rules, answer_rules, call_rules, read_rules, write_rules, end_session-Keeps)

handler-Serves :
    (srv : Server) (route : Route) (r : Request) → Serves srv HasRefs (handler srv route r)
unfolding handler Probes.health Probes.ready Probes.version Install.get_status Install.create
    Accounts.register Accounts.login Accounts.refresh Accounts.logout Accounts.me Groups.list
    Groups.create Groups.update Groups.delete Groups.get Threads.list_by_group Threads.create
    Threads.get Threads.update Threads.delete Posts.list_by_thread Posts.create Posts.update
    Posts.delete Media.upload_avatar Media.upload_attachment Media.delete_attachment Media.serve
    Admin.list_users Admin.update_user Admin.get_settings Admin.update_settings Admin.list_media
    Messages.inbox Messages.conversation Messages.send Messages.unread_count Messages.mark_read
    Messages.notifications Messages.mark_notification_read Messages.mark_all_notifications_read
    Messages.online Messages.presence Live.serve
handler-Serves srv healthz r = search route_rules depth 16
handler-Serves srv readyz r = search route_rules depth 16
handler-Serves srv health r = search route_rules depth 16
handler-Serves srv version r = search route_rules depth 16
handler-Serves srv install_status r = search route_rules depth 16
handler-Serves srv install_create r = search route_rules depth 16
handler-Serves srv auth_register r = search route_rules depth 16
handler-Serves srv auth_login r = search route_rules depth 16
handler-Serves srv auth_refresh r = search route_rules depth 16
handler-Serves srv auth_logout r = search route_rules depth 16
handler-Serves srv auth_me r = search route_rules depth 16
handler-Serves srv groups_list r = search route_rules depth 16
handler-Serves srv groups_create r = search route_rules depth 16
handler-Serves srv groups_update r = search route_rules depth 16
handler-Serves srv groups_delete r = search route_rules depth 16
handler-Serves srv groups_get r = search route_rules depth 16
handler-Serves srv threads_list r = search route_rules depth 16
handler-Serves srv threads_create r = search route_rules depth 16
handler-Serves srv threads_get r = search route_rules depth 16
handler-Serves srv threads_update r = search route_rules depth 16
handler-Serves srv threads_delete r = search route_rules depth 16
handler-Serves srv posts_list r = search route_rules depth 16
handler-Serves srv posts_create r = search route_rules depth 16
handler-Serves srv posts_update r = search route_rules depth 16
handler-Serves srv posts_delete r = search route_rules depth 16
handler-Serves srv media_avatar r = search route_rules depth 16
handler-Serves srv media_attach r = search route_rules depth 16
handler-Serves srv media_delete r = search route_rules depth 16
handler-Serves srv media_serve r = search route_rules depth 16
handler-Serves srv admin_users r = search route_rules depth 16
handler-Serves srv admin_user r = search route_rules depth 16
handler-Serves srv admin_settings r = search route_rules depth 16
handler-Serves srv admin_set r = search route_rules depth 16
handler-Serves srv admin_media r = search route_rules depth 16
handler-Serves srv pms_inbox r = search route_rules depth 16
handler-Serves srv pms_with r = search route_rules depth 16
handler-Serves srv pms_send r = search route_rules depth 16
handler-Serves srv pms_unread r = search route_rules depth 16
handler-Serves srv pms_read r = search route_rules depth 16
handler-Serves srv notes_list r = search route_rules depth 16
handler-Serves srv notes_read r = search route_rules depth 16
handler-Serves srv notes_read_all r = search route_rules depth 16
handler-Serves srv presence_all r = search route_rules depth 16
handler-Serves srv presence_one r = search route_rules depth 16
handler-Serves srv live r = search route_rules depth 16

pub guarded-Serves :
    {P : Database → Type 0} (srv : Server) (g : Guard) (h : Handler) (r : Request)
    → ((q : Request) → Serves srv P (h q))
    → Serves srv P (guarded srv g h r)
unfolding guarded
guarded-Serves srv anyone h r k = k r
guarded-Serves srv signed_in h r k = Serves-require_auth h r k
guarded-Serves srv admin h r k =
    Serves-require_auth _ r (λ q. Serves-require_role (role_admin ∷ []) h q k)

serve-Serves : (srv : Server) (route : Route) (r : Request) → Serves srv HasRefs (serve srv route r)
unfolding serve
serve-Serves srv route r =
    guarded-Serves srv (guard route) (handler srv route) _ (λ q. handler-Serves srv route q)

-- Whatever the request and the state: the answer has the JSON object of an error as its body exactly
-- if its status is 400 or more, and any cookie that it sets is the refresh cookie, on the path /,
-- closed to scripts and to requests from other sites, and Secure as the configuration says; only the
-- refusal of a connection by the websocket upgrader is passed on as it is.
pub serve-IsAnswer :
    (srv : Server) (route : Route) (r : Request) (s : Site) → IsAnswer srv (serve srv route r s).0
serve-IsAnswer srv route r s = (serve-Serves srv route r).shape s

-- What happens to a site: requests, one after another, and between them the steps of the hub.
pub data Run (srv : Server) (s : Site) : Site → Type 0 where
  here : Run srv s s
  request :
      {t u : Site} (route : Route) (r : Request)
      → Run srv s t
      → u ≡ (serve srv route r t).1
      → Run srv s u
  step :
      {t u : Site} (m : System)
      → Run srv s t
      → Step t.system m
      → u ≡ record t { system = m }
      → Run srv s u

-- Whatever requests come for whatever routes in whatever order, with whatever headers, parameters and
-- bodies, whatever the goroutines of the hub do in between, and whatever failures of the database, the
-- bucket and the random source happen: if every thread was in an existing group, every post in an
-- existing thread, and every parent group and every attachment's post existed before, so it is after.
pub run-HasRefs :
    {srv : Server} {s t : Site} → Run srv s t → HasRefs s.world.db → HasRefs t.world.db
run-HasRefs here h = h
run-HasRefs {srv} (request route r before e) h =
    rw e ((serve-Serves srv route r).db _ (run-HasRefs before h))
run-HasRefs (step m before st e) h = rw e (run-HasRefs before h)

run-Reach : {srv : Server} {s t : Site} → Run srv s t → Reach s.system → Reach t.system
run-Reach here h = h
run-Reach {srv} (request route r before e) h =
    rw e ((serve-Serves srv route r).hub _ (run-Reach before h))
run-Reach (step m before st e) h = rw e (after (run-Reach before h) st)
