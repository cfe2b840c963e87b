-- ===== src/Examples/Web.antt =====
-- Requests to a server at concrete tables.
use masonic_core.Prelude.{◌≡◌, refl, none}
use masonic_core.Integrity.{HasRefs}
use masonic_core.Http.{Site}
use masonic_core.Http.Routes.{
  guard, handler, serve, posts_create, threads_get, pms_unread, auth_logout, admin_users,
}
use masonic_core.Web.Answers.{IsAnswer}
use masonic_core.Web.Requests.{Run, here, serve-IsAnswer, run-HasRefs}
use masonic_core.Web.Requests.Run.{request as asks}
use masonic_core.Web.Safe.{serve-reads}
use masonic_core.Web.Guards.{Passage, serve-Passage}
use masonic_core.Examples.Data.{sample_server, site, request}
use masonic_core.Examples.Integrity.{sample-HasRefs}

abbrev after_post : Site
after_post = (serve sample_server posts_create request site).1

abbrev after_view : Site
after_view = (serve sample_server threads_get request after_post).1

two_requests : Run sample_server site after_view
two_requests = asks threads_get request (asks posts_create request here refl) refl

run-HasRefs_example : HasRefs after_view.world.db
run-HasRefs_example = run-HasRefs two_requests sample-HasRefs

serve-IsAnswer_example : IsAnswer sample_server (serve sample_server auth_logout request site).0
serve-IsAnswer_example = serve-IsAnswer sample_server auth_logout request site

serve-reads_example : (serve sample_server pms_unread request site).1.world.db ≡ site.world.db
serve-reads_example = serve-reads sample_server pms_unread request site refl (λ e. cc)

serve-Passage_example :
    Passage sample_server
      (guard admin_users)
      (handler sample_server admin_users)
      (record request { user = none })
      site
      (serve sample_server admin_users request site)
serve-Passage_example = serve-Passage sample_server admin_users request site (λ e. cc)
