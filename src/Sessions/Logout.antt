-- ===== src/Sessions/Logout.antt =====
-- What a logout does to the session of its token.
use masonic_core.Config.{secure_cookies}
use masonic_core.Prelude.{
  negsuc, [], ◌&&◌, ◌==◌, update_rows, is_none, ℕ, suc, ◌≡◌, refl, ap, ◌∙◌, Bool, true, false, none,
  some, ◌∷◌,
}
use masonic_core.Text.{Text, text}
use masonic_core.Models.{Session}
use masonic_core.World.{
  Database, World, Error, row_not_found, Outcome, ok, err, final, settled, refuse_if, statement,
  time_now,
}
use masonic_core.Auth.Tokens.{hash_refresh_token}
use masonic_core.Store.Session
use masonic_core.Store.Session.{live_session}
use masonic_core.Services.Auth as AuthService
use masonic_core.Http.{Request, Response, Server, Site}
use masonic_core.Http.Answers.{reply, answer, no_content}
use masonic_core.Http.Input.{cookie_of}
use masonic_core.Http.Accounts
use masonic_core.Http.Accounts.{cleared_cookie, with_cookie}
use masonic_core.Sessions.Keys.{IsKeyed, revoked, live-revoked}

settled-refuse_if :
    (b : Bool) (e : Error) (w : World) → (final (settled (refuse_if b e w))).db ≡ w.db
settled-refuse_if true e w = refl
settled-refuse_if false e w = refl

logout_lem :
    (token : Text) (w : World) (s : Session)
    → ((n : ℕ) → w.env.outage n ≡ false)
    → live_session (w.env.digest token) (w.env.clock w.calls) w.db.sessions ≡ some s
    → (final (AuthService.logout token w)).db
      ≡ record w.db { sessions = revoked s.id (w.env.clock (suc w.calls)) w.db.sessions }
unfolding AuthService.logout hash_refresh_token Session.get_by_token_hash Session.select_session
    Session.scan_session time_now Session.revoke Session.update_open statement
logout_lem token w s out live =
    rw (out w.calls, live, out (suc (suc w.calls))) (settled-refuse_if _ row_not_found _)

-- An action that is answered in the same way whether it fails or not.
answer_always {ℓ} :
    {A : Type ℓ} (x : Response) (s : Site) (o : Outcome A)
    → answer (λ _. reply x) (λ _. reply x) s o ≡ (x, record s { world = final o })
answer_always x s (ok a w) = refl
answer_always x s (err e w) = refl

final-settled {ℓ} : {A : Type ℓ} (o : Outcome A) → final (settled o) ≡ final o
final-settled (ok a w) = refl
final-settled (err e w) = refl

-- Every request for the logout, whatever it holds and whatever fails meanwhile, is answered with the
-- status 204 and with the refresh cookie emptied and made to expire at once, under the attributes that
-- it was set with.
pub logout-clears :
    (srv : Server) (r : Request) (s : Site)
    → ((Accounts.logout srv r s).0.status ≡ 204)
      × ((Accounts.logout srv r s).0.cookie
          ≡ some (record {
            name = srv.config.refresh_cookie_name;
            value = [];
            path = text "/";
            max_age = negsuc 0;
            http_only = true;
            secure = secure_cookies srv.config;
            same_site_lax = true;
          }))
unfolding Accounts.logout cleared_cookie
logout-clears srv r s =
    let x = with_cookie (cleared_cookie srv.config) no_content in
    let shape =
      answer_always x s
        (Accounts.end_session (cookie_of srv.config.refresh_cookie_name r.cookies) s.world) in
    (ap (λ (p : Response × Site). p.0.status) shape, ap (λ (p : Response × Site). p.0.cookie) shape)

-- If the cookie of a request for the logout is a token with a live session, no two sessions have one
-- token hash, and no call of the database fails meanwhile, then the request sets the time of revocation
-- of this session and changes nothing else of the tables, and the token has no live session afterwards,
-- at any time.
pub logout-ends :
    (srv : Server) (r : Request) (s : Site) (c : ℕ) (token : Text) (session : Session)
    → cookie_of srv.config.refresh_cookie_name r.cookies ≡ some (c ∷ token)
    → ((n : ℕ) → s.world.env.outage n ≡ false)
    → IsKeyed s.world.db.sessions
    → live_session
        (s.world.env.digest (c ∷ token))
        (s.world.env.clock s.world.calls)
        s.world.db.sessions
      ≡ some session
    → ((at : ℕ) × ((Accounts.logout srv r s).1.world.db ≡ record s.world.db {
      sessions =
          update_rows
            (λ k. k.id == session.id && is_none k.revoked_at)
            (λ k. record k { revoked_at = some at })
            s.world.db.sessions;
    }))
      × ((later : ℕ)
          → live_session
              (s.world.env.digest (c ∷ token))
              later
              (Accounts.logout srv r s).1.world.db.sessions
            ≡ none)
unfolding Accounts.logout Accounts.end_session
logout-ends srv r s c token session has out keyed live =
    let x = with_cookie (cleared_cookie srv.config) no_content in
    let o = Accounts.end_session (some (c ∷ token)) s.world in
    let shape : Accounts.logout srv r s ≡ (x, record s { world = final o }) =
      rw has (answer_always x s o) in
    let at = s.world.env.clock (suc s.world.calls) in
    let left : (Accounts.logout srv r s).1.world.db
        ≡ record s.world.db { sessions = revoked session.id at s.world.db.sessions } =
      ap (λ (p : Response × Site). p.1.world.db) shape
      ∙ ap (λ (w : World). w.db) (final-settled (AuthService.logout (c ∷ token) s.world))
      ∙ logout_lem (c ∷ token) s.world session out live in
    (
      (at, left),
      λ later.
          ap (λ (b : Database). live_session (s.world.env.digest (c ∷ token)) later b.sessions) left
          ∙ live-revoked (s.world.env.digest (c ∷ token)) (s.world.env.clock s.world.calls) later _
              s.world.db.sessions session keyed live,
    )
