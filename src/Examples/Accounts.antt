-- ===== src/Examples/Accounts.antt =====
-- A registration, the clean-up of sessions, and texts of requests.
use masonic_core.Prelude.{◌∷◌}
use masonic_core.Prelude.{
  ℕ, ◌≤◌, ◌≡◌, refl, ◌≢◌, ◌↔◌, true, false, [], arith, length, any_row, all_rows, keep_rows,
}
use masonic_core.Text.{text, text_eq}
use masonic_core.Models.{status_active, User}
use masonic_core.World.{Outcome, ok, final, statement, read_random}
use masonic_core.Text.Space.{trim_space}
use masonic_core.Text.Regex.{match_string}
use masonic_core.Services.Patterns.{username_re, email_re, word_byte}
use masonic_core.Services.Auth as AuthService
use masonic_core.Services.Media.{sanitize_filename}
use masonic_core.Services.Notification.{preview}
use masonic_core.Store.Session
use masonic_core.Store.Session.{live_session}
use masonic_core.Names.{username_re_iff}
use masonic_core.Inputs.{preview-bounds, sanitize_filename-bounds}
use masonic_core.Sessions.Register.{register-eq-ok}
use masonic_core.Sessions.Cleanup.{delete_expired-live_session}
use masonic_core.Examples.Data.{alice, sample, sample_env, sample_db, value_or}

abbrev registered : Outcome User
registered = AuthService.register (text " bob ") (text "b@c.d") (text "password") sample

registered-ok : registered ≡ ok (value_or alice registered) (final registered)
unfolding AuthService.register match_string trim_space username_re email_re
    masonic_core.Auth.Password.hash read_random masonic_core.Store.User.create statement any_row
    text_eq masonic_core.Store.User.add_member_role keep_rows
registered-ok = refl

register-eq-ok_example :
    ((value_or alice registered).username ≡ trim_space (text " bob "))
    × ((value_or alice registered).email ≡ trim_space (text "b@c.d"))
    × ((value_or alice registered).status ≡ status_active)
    × (match_string username_re (trim_space (text " bob ")) ≡ true)
    × (match_string email_re (trim_space (text "b@c.d")) ≡ true)
    × (8 ≤ length (trim_space (text "password")))
    × (any_row (λ r. text_eq r.email (trim_space (text "b@c.d"))) sample_db.users ≡ false)
    × (any_row
          (λ r.
            text_eq (sample_env.lower r.username) (sample_env.lower (trim_space (text " bob "))))
          sample_db.users
        ≡ false)
    × ((final registered).db.users ≡ value_or alice registered ∷ sample_db.users)
register-eq-ok_example =
    register-eq-ok (text " bob ") (text "b@c.d") (text "password") sample
      (value_or alice registered) (final registered) registered-ok

abbrev cleaned : Outcome ℕ
cleaned = Session.delete_expired sample

cleaned-ok : cleaned ≡ ok (value_or 0 cleaned) (final cleaned)
unfolding Session.delete_expired statement
cleaned-ok = refl

delete_expired-live_session_example :
    live_session (text "old") 200 (final cleaned).db.sessions
    ≡ live_session (text "old") 200 sample_db.sessions
delete_expired-live_session_example =
    delete_expired-live_session sample (value_or 0 cleaned) (final cleaned) cleaned-ok (text "old")
      200 (omega arith)

username_re_iff_example : (match_string username_re (text "bob") ≡ true) ↔ (
    (3 ≤ length (text "bob"))
    × (length (text "bob") ≤ 32)
    × (all_rows word_byte (text "bob") ≡ true))
username_re_iff_example = username_re_iff (text "bob")

preview-bounds_example :
    (length (preview (text "hello")) ≤ 83)
    × (length (text "hello") ≤ 80 → preview (text "hello") ≡ text "hello")
preview-bounds_example = preview-bounds (text "hello")

sanitize_filename-bounds_example :
    (length (sanitize_filename (text "a/b.png")) ≤ 160) × (sanitize_filename (text "a/b.png") ≢ [])
sanitize_filename-bounds_example = sanitize_filename-bounds (text "a/b.png")
