-- ===== src/Examples/Sessions.antt =====
-- Sessions at concrete tables.
use masonic_core.Prelude.{
  ℕ, ◌≡◌, refl, ◌≢◌, true, false, none, some, [], ◌∷◌, ◌==◌, find_row, any_row, keep_rows,
  count_rows, update_rows, insert_row, order_rows,
}
use masonic_core.Text.{Text, text, text_eq, text_eq_iff, to_lower, has_prefix, has_byte, is_listed}
use masonic_core.Models.{status_active, Session}
use masonic_core.World.{Outcome, ok, final, statement, time_now, read_random}
use masonic_core.Auth.Password
use masonic_core.Auth.Password.{matches}
use masonic_core.Store.Session.{live_session}
use masonic_core.Services.Auth as AuthService
use masonic_core.Services.Auth.{Tokens}
use masonic_core.Sessions.Keys.{IsKeyed}
use masonic_core.Sessions.Refresh.{refresh-spent, refresh-replay}
use masonic_core.Text.Space.{trim_space}
use masonic_core.Sessions.Lookup.{by_name, HasAddress}
use masonic_core.Prelude.{◌⊎◌, none, some}
use masonic_core.Sessions.Login.{login-eq-ok}
use masonic_core.Examples.Data.{alice, sample, sample_env, sample_db, sample_config, value_or}

abbrev no_tokens : Tokens
no_tokens = record { access_token = []; refresh_token = []; user = alice; roles = [] }

sample-IsKeyed : IsKeyed sample_db.sessions
unfolding any_row
sample-IsKeyed = (refl, tt)

abbrev refreshed : Outcome Tokens
refreshed = AuthService.refresh sample_config (text "old") [] [] sample

refreshed-ok : refreshed ≡ ok (value_or no_tokens refreshed) (final refreshed)
unfolding AuthService.refresh masonic_core.Auth.Tokens.hash_refresh_token
    masonic_core.Store.Session.get_by_token_hash statement find_row text_eq
    masonic_core.Store.User.get_by_id time_now masonic_core.Store.Session.revoke count_rows
    AuthService.issue_tokens masonic_core.Store.User.roles_for_user
    masonic_core.Auth.Tokens.new_access_token masonic_core.Auth.Tokens.new_refresh_token
    masonic_core.Store.Session.create masonic_core.Text.HostPort.split_host_port any_row update_rows
    masonic_core.Auth.Base64.digit masonic_core.Auth.Base64.encode
    masonic_core.Auth.Tokens.claims_at insert_row keep_rows order_rows AuthService.normalize_ip
    AuthService.session_user masonic_core.Store.Cascade.has_user
    masonic_core.Store.Session.insert_session masonic_core.Store.Session.insert_with
    masonic_core.Store.Session.is_live live_session masonic_core.Store.Session.new_row
    masonic_core.Store.Session.scan_session masonic_core.Store.Session.select_session
    masonic_core.Store.Session.update_open masonic_core.Store.User.has_role_row
    masonic_core.Store.User.role_keys masonic_core.Store.User.scan_one
    masonic_core.Store.User.select_roles masonic_core.Store.User.select_user read_random
refreshed-ok = refl

refresh-spent_example :
    (text_eq (value_or no_tokens refreshed).user.status status_active ≡ true)
    × ((s : Session) × (live_session (text "old") 100 sample_db.sessions ≡ some s)
        × (find_row (λ r. r.id == s.user_id) sample_db.users
            ≡ some (value_or no_tokens refreshed).user))
    × ((later : ℕ) → live_session (text "old") later (final refreshed).db.sessions ≡ none)
    × IsKeyed (final refreshed).db.sessions
refresh-spent_example =
    refresh-spent sample_config (text "old") [] [] sample (value_or no_tokens refreshed)
      (final refreshed) refreshed-ok sample-IsKeyed

refresh-replay_example :
    AuthService.refresh sample_config (text "old") [] [] (final refreshed) ≢ ok no_tokens sample
refresh-replay_example =
    refresh-replay sample_config sample_config (text "old") [] [] [] [] sample
      (value_or no_tokens refreshed) no_tokens (final refreshed) sample sample-IsKeyed refreshed-ok

abbrev logged_in : Outcome Tokens
logged_in = AuthService.login sample_config (text " alice ") (text "secret") [] [] sample

logged_in-ok : logged_in ≡ ok (value_or no_tokens logged_in) (final logged_in)
unfolding AuthService.login masonic_core.Store.User.get_by_username statement find_row text_eq
    masonic_core.Text.Space.trim_space Password.verify keep_rows AuthService.issue_tokens
    masonic_core.Store.User.roles_for_user masonic_core.Auth.Tokens.new_access_token
    masonic_core.Auth.Tokens.new_refresh_token masonic_core.Store.Session.create
    masonic_core.Text.HostPort.split_host_port any_row masonic_core.Auth.Base64.digit
    masonic_core.Store.Cascade.has_user
logged_in-ok = refl

login-eq-ok_example :
    ((by_name sample (trim_space (text " alice ")) ≡ some (value_or no_tokens logged_in).user)
      ⊎ ((by_name sample (trim_space (text " alice ")) ≡ none)
          × HasAddress sample (trim_space (text " alice ")) (value_or no_tokens logged_in).user))
    × (text_eq (value_or no_tokens logged_in).user.status status_active ≡ true)
    × (Password.check sample_env (text "secret") (value_or no_tokens logged_in).user.password_hash
        ≡ matches)
    × ((s : Session) × ((final logged_in).db
          ≡ record sample_db { sessions = s ∷ sample_db.sessions })
        × (s.user_id ≡ (value_or no_tokens logged_in).user.id)
        × (s.token_hash ≡ sample_env.digest (value_or no_tokens logged_in).refresh_token)
        × (any_row (λ r. text_eq r.token_hash s.token_hash) sample_db.sessions ≡ false))
login-eq-ok_example =
    login-eq-ok sample_config (text " alice ") (text "secret") [] [] sample
      (value_or no_tokens logged_in) (final logged_in) logged_in-ok
