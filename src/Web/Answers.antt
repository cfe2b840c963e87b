-- ===== src/Web/Answers.antt =====
-- The shape of an answer, which every answer of the server has.
use masonic_core.Prelude.{◌≡◌, refl, Bool, true, false, Option, none, some, leb}
use masonic_core.Text.{Text, text}
use masonic_core.World.{
  Error, invalid_refresh, user_not_active, user_not_found, username_taken, invalid_input, conflict,
}
use masonic_core.Config.{Config, secure_cookies}
use masonic_core.Http.{Request, Cookie, Body, error_body, Response, Server}
use masonic_core.Http.Answers.{core_error}
use masonic_core.Http.Accounts
use masonic_core.Http.Install

-- Whether the answer is the JSON object of an error.
abbrev pub is_error : Body → Bool
is_error (error_body code message) = true
is_error _ = false

-- A cookie is the one of refresh tokens, closed to scripts and to other sites, and sent over TLS only
-- where the configuration says so.
pub record IsRefreshCookie (cfg : Config) (c : Cookie) : Type 0 where
  pub name : c.name ≡ cfg.refresh_cookie_name
  pub path : c.path ≡ text "/"
  pub http_only : c.http_only ≡ true
  pub secure : c.secure ≡ secure_cookies cfg
  pub same_site : c.same_site_lax ≡ true

pub data HasRefreshCookie (cfg : Config) : Option Cookie → Type 0 where
  absent : HasRefreshCookie cfg none
  present : (c : Cookie) → IsRefreshCookie cfg c → HasRefreshCookie cfg (some c)

-- The body is that of an error exactly if the status is one, or the answer is the upgrader's own.
pub data IsAnswer (srv : Server) (r : Response) : Type 0 where
  written :
      is_error r.body ≡ leb 400 r.status → HasRefreshCookie srv.config r.cookie → IsAnswer srv r
  relayed : (q : Request) → srv.upgrade q ≡ some r → IsAnswer srv r

module _ (srv : Server) where
  pub core_error-IsAnswer : (e : Error) → IsAnswer srv (core_error e)
  unfolding core_error
  core_error-IsAnswer invalid_input = written refl absent
  core_error-IsAnswer e = written refl absent

  pub register_error-IsAnswer : (e : Error) → IsAnswer srv (Accounts.register_error e)
  unfolding Accounts.register_error
  register_error-IsAnswer username_taken = written refl absent
  register_error-IsAnswer e = written refl absent

  pub login_error-IsAnswer : (e : Error) → IsAnswer srv (Accounts.login_error e)
  unfolding Accounts.login_error
  login_error-IsAnswer user_not_active = written refl absent
  login_error-IsAnswer e = written refl absent

  pub profile_error-IsAnswer : (e : Error) → IsAnswer srv (Accounts.profile_error e)
  unfolding Accounts.profile_error
  profile_error-IsAnswer user_not_found = written refl absent
  profile_error-IsAnswer e = written refl absent

  pub install_error-IsAnswer : (e : Error) → IsAnswer srv (Install.install_error e)
  unfolding Install.install_error
  install_error-IsAnswer conflict = written refl absent
  install_error-IsAnswer e = written refl absent

  pub sent-IsRefreshCookie :
      (value : Text) → IsRefreshCookie srv.config (Accounts.refresh_cookie srv.config value)
  unfolding Accounts.refresh_cookie
  sent-IsRefreshCookie value = record {
    name = refl;
    path = refl;
    http_only = refl;
    secure = refl;
    same_site = refl;
  }

  pub cleared-IsRefreshCookie : IsRefreshCookie srv.config (Accounts.cleared_cookie srv.config)
  unfolding Accounts.cleared_cookie
  cleared-IsRefreshCookie = record {
    name = refl;
    path = refl;
    http_only = refl;
    secure = refl;
    same_site = refl;
  }

  pub refresh_error-IsAnswer : (e : Error) → IsAnswer srv (Accounts.refresh_error srv.config e)
  unfolding Accounts.refresh_error
  refresh_error-IsAnswer invalid_refresh = written refl (present _ cleared-IsRefreshCookie)
  refresh_error-IsAnswer user_not_active = written refl (present _ cleared-IsRefreshCookie)
  refresh_error-IsAnswer e = written refl absent

pub ruleset answer_rules = (
  core_error-IsAnswer, register_error-IsAnswer, login_error-IsAnswer, profile_error-IsAnswer,
  install_error-IsAnswer, sent-IsRefreshCookie, cleared-IsRefreshCookie, refresh_error-IsAnswer,
  written, absent, present,
)
