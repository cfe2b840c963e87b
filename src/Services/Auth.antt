-- ===== src/Services/Auth.antt =====
-- internal/services/auth.go
use masonic_core.Prelude.{ℕ, ◌+◌, not, Option, none, some, List, ltb, if◌then◌else◌, length}
use masonic_core.Text.{Text, text, text_eq}
use masonic_core.Models.{status_active, User, Session}
use masonic_core.World.{
  invalid_credentials, invalid_refresh, user_not_active, user_not_found, username_taken, validation,
  M, pure, raise, handle, ignore, ◌>>=◌, ◌>>◌, refuse_if, is_not_found, missing_as, conflict_as,
  time_now,
}
use masonic_core.Text.Space.{trim_space}
use masonic_core.Text.HostPort.{split_host_port}
use masonic_core.Text.Regex.{match_string}
use masonic_core.Config.{Config}
use masonic_core.Auth.Password.{default_params}
use masonic_core.Auth.Password
use masonic_core.Auth.Tokens.{new_access_token, new_refresh_token, hash_refresh_token}
use masonic_core.Store.User
use masonic_core.Store.Session
use masonic_core.Services.Patterns.{username_re, email_re}

pub record Tokens : Type 0 where
  pub access_token : Text
  pub refresh_token : Text
  pub user : User
  pub roles : List Text

-- The three tests of Register, on trimmed values.
unfoldable pub validate : Text → Text → Text → M (Unit {0})
validate username email password = do
  refuse_if (not (match_string username_re username))
      (validation (text "username must be 3-32 chars [a-zA-Z0-9_]"))
  refuse_if (not (match_string email_re email)) (validation (text "invalid email"))
  refuse_if (ltb (length password) 8) (validation (text "password must be at least 8 chars"))

-- Register, past the trimming.
unfoldable pub register_trimmed : Text → Text → Text → M User
unfolding validate
register_trimmed username email password = do
  validate username email password
  hash ← Password.hash default_params password
  user ←
      handle
        (User.create (record {
          username = username;
          email = email;
          password_hash = hash;
          display_name = username;
        }))
        (conflict_as username_taken)
  User.add_member_role user.id
  pure user

unfoldable pub register : Text → Text → Text → M User
unfolding register_trimmed
register username email password =
    register_trimmed (trim_space username) (trim_space email) (trim_space password)

host_or : Text → Option Text → Text
host_or ip none = ip
host_or ip (some host) = host

-- normalizeIP
unfoldable pub normalize_ip : Text → Text
unfolding host_or
normalize_ip ip = host_or ip (split_host_port ip)

unfoldable pub issue_tokens : Config → User → Text → Text → M Tokens
unfolding normalize_ip
issue_tokens cfg user user_agent ip = do
  roles ← User.roles_for_user user.id
  access ← new_access_token cfg user.id user.username roles
  refresh ← new_refresh_token
  now ← time_now
  _ ← Session.create (record {
    user_id = user.id;
    token_hash = refresh.1;
    user_agent = user_agent;
    ip = normalize_ip ip;
    expires_at = now + cfg.refresh_ttl;
  })
  pure (record { access_token = access; refresh_token = refresh.0; user = user; roles = roles })

-- The lookups of Login: by username, and by email if there is no such username.
unfoldable pub find_login : Text → M User
find_login identifier = handle (User.get_by_username identifier) λ e.
    if is_not_found e
    then handle (User.get_by_email identifier) (λ _. raise invalid_credentials)
    else raise e

-- Login, past the trimming of the identifier.
unfoldable pub login_trimmed : Config → Text → Text → Text → Text → M Tokens
unfolding find_login
login_trimmed cfg identifier password user_agent ip = do
  user ← find_login identifier
  refuse_if (not (text_eq user.status status_active)) user_not_active
  matched ← Password.verify password user.password_hash
  refuse_if (not matched) invalid_credentials
  issue_tokens cfg user user_agent ip

unfoldable pub login : Config → Text → Text → Text → Text → M Tokens
unfolding login_trimmed
login cfg identifier password user_agent ip =
    login_trimmed cfg (trim_space identifier) password user_agent ip

-- The user of a session; a session whose user is gone is revoked.
unfoldable pub session_user : Session → M User
session_user session = handle (User.get_by_id session.user_id) λ e.
    if is_not_found e
    then (do now ← time_now; ignore (Session.revoke session.id now); raise invalid_refresh)
    else raise e

unfoldable pub refresh : Config → Text → Text → Text → M Tokens
unfolding session_user
refresh cfg refresh_token user_agent ip = do
  hash ← hash_refresh_token refresh_token
  session ← handle (Session.get_by_token_hash hash) (missing_as invalid_refresh)
  user ← session_user session
  refuse_if (not (text_eq user.status status_active)) user_not_active
  now ← time_now
  Session.revoke session.id now
  issue_tokens cfg user user_agent ip

-- Every failure on the way ends the logout without an error.
unfoldable pub logout : Text → M (Unit {0})
logout refresh_token = ignore (do
  hash ← hash_refresh_token refresh_token
  session ← Session.get_by_token_hash hash
  now ← time_now
  Session.revoke session.id now)

unfoldable pub profile : ℕ → M (User × List Text)
profile id = do
  user ← handle (User.get_by_id id) (missing_as user_not_found)
  roles ← User.roles_for_user user.id
  pure (user, roles)
