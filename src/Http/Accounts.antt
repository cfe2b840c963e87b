-- ===== src/Http/Accounts.antt =====
-- auth.go
use masonic_core.Prelude.{◌/◌, ◌^◌, true, Option, none, some, [], ◌∷◌, ◌++◌, pos, negsuc}
use masonic_core.Text.{Text, text}
use masonic_core.World.{
  Error, invalid_credentials, invalid_refresh, user_not_active, user_not_found, username_taken,
  email_taken, validation, M, pure, ignore,
}
use masonic_core.Config.{Config, is_empty, secure_cookies}
use masonic_core.Services.Auth
use masonic_core.Http.{
  Server, Handler, Cookie, Response, user_body, login_body, token_body, profile_body,
}
use masonic_core.Http.Answers.{
  reply, json, refusal, no_content, server_error, attempt, or_refuse, stop_if, unauthorized,
}
use masonic_core.Http.Input.{cookie_of, client_ip}

abbrev malformed : Response
malformed = refusal 400 (text "malformed_request") (text "request body is invalid")

unfoldable pub register_error : Error → Response
register_error (validation message) =
    refusal 400 (text "validation_error") (text "validation failed: " ++ message)
register_error username_taken =
    refusal 409 (text "user_exists") (text "username or email is already registered")
register_error email_taken =
    refusal 409 (text "user_exists") (text "username or email is already registered")
register_error e = server_error e

unfoldable pub register : Server → Handler
unfolding register_error
register srv r = or_refuse (srv.decoders.register_request r.payload) malformed λ req.
    attempt (Auth.register req.username req.email req.password) (λ e. reply (register_error e))
      λ user. reply (json 201 (user_body user))

-- setRefreshCookie
unfoldable pub refresh_cookie : Config → Text → Cookie
refresh_cookie cfg value = record {
  name = cfg.refresh_cookie_name;
  value = value;
  path = text "/";
  max_age = pos (cfg.refresh_ttl / 10 ^ 9);
  http_only = true;
  secure = secure_cookies cfg;
  same_site_lax = true;
}

-- clearRefreshCookie
unfoldable pub cleared_cookie : Config → Cookie
cleared_cookie cfg = record {
  name = cfg.refresh_cookie_name;
  value = [];
  path = text "/";
  max_age = negsuc 0;
  http_only = true;
  secure = secure_cookies cfg;
  same_site_lax = true;
}

abbrev pub with_cookie : Cookie → Response → Response
with_cookie c r = record r { cookie = some c }

unfoldable pub login_error : Error → Response
login_error invalid_credentials =
    refusal 401 (text "invalid_credentials") (text "username or password is incorrect")
login_error user_not_active = refusal 403 (text "account_disabled") (text "account is not active")
login_error e = server_error e

unfoldable pub login : Server → Handler
unfolding login_error refresh_cookie
login srv r = or_refuse (srv.decoders.login_request r.payload) malformed λ req.
    attempt (Auth.login srv.config req.identifier req.password r.user_agent (client_ip r))
      (λ e. reply (login_error e))
      λ tokens. reply (
        with_cookie (refresh_cookie srv.config tokens.refresh_token)
          (json 200 (login_body tokens.access_token tokens.user tokens.roles)))

unfoldable pub refresh_error : Config → Error → Response
unfolding cleared_cookie
refresh_error cfg invalid_refresh =
    with_cookie (cleared_cookie cfg)
      (refusal 401 (text "invalid_refresh_token") (text "refresh token is invalid or expired"))
refresh_error cfg user_not_active =
    with_cookie (cleared_cookie cfg)
      (refusal 403 (text "account_disabled") (text "account is not active"))
refresh_error cfg e = server_error e

abbrev pub missing_refresh : Response
missing_refresh = refusal 401 (text "invalid_refresh_token") (text "refresh token is missing")

unfoldable pub refresh : Server → Handler
unfolding refresh_error refresh_cookie
refresh srv r =
    or_refuse (cookie_of srv.config.refresh_cookie_name r.cookies) missing_refresh λ token.
      stop_if (is_empty token) missing_refresh (
        attempt (Auth.refresh srv.config token r.user_agent (client_ip r))
          (λ e. reply (refresh_error srv.config e))
          λ tokens. reply (
            with_cookie (refresh_cookie srv.config tokens.refresh_token)
              (json 200 (token_body tokens.access_token))))

-- The cookie of a logout, where there is one that is not empty.
unfoldable pub end_session : Option Text → M (Unit {0})
end_session none = pure tt
end_session (some []) = pure tt
end_session (some (c ∷ token)) = ignore (Auth.logout (c ∷ token))

unfoldable pub logout : Server → Handler
unfolding end_session cleared_cookie
logout srv r =
    attempt (end_session (cookie_of srv.config.refresh_cookie_name r.cookies))
      (λ _. reply (with_cookie (cleared_cookie srv.config) no_content))
      λ _. reply (with_cookie (cleared_cookie srv.config) no_content)

unfoldable pub profile_error : Error → Response
profile_error user_not_found = refusal 404 (text "user_not_found") (text "user does not exist")
profile_error e = server_error e

unfoldable pub me : Handler
unfolding profile_error
me r = or_refuse r.user unauthorized λ info.
    attempt (Auth.profile info.id) (λ e. reply (profile_error e))
      λ (user, roles). reply (json 200 (profile_body user roles))
