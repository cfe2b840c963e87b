-- ===== src/Services/Install.antt =====
-- internal/services/install.go
use masonic_core.Prelude.{
  Bool, true, false, ◌&&◌, ◌||◌, not, Option, none, some, ltb, if◌then◌else◌, length,
}
use masonic_core.Text.{Text, text}
use masonic_core.Models.{role_admin, User}
use masonic_core.World.{
  Setting, Outcome, flag_value, text_value, bad_json, already_installed, invalid_input, conflict,
  failure, ok, err, M, pure, raise, handle, ◌>>=◌, ◌>>◌, refuse_if, is_not_found, conflict_as,
}
use masonic_core.Text.Space.{trim_space}
use masonic_core.Text.Runes.{rune_count}
use masonic_core.Text.Regex.{match_string}
use masonic_core.Config.{is_empty}
use masonic_core.Auth.Password.{default_params}
use masonic_core.Auth.Password
use masonic_core.Store.User
use masonic_core.Store.Settings
use masonic_core.Services.Patterns.{username_re, email_re}

abbrev pub key_installed : Text
key_installed = text "system.installed"

abbrev pub key_forum_name : Text
key_forum_name = text "forum.name"

pub record InstallStatus : Type 0 where
  pub installed : Bool
  pub forum_name : Option Text

pub record InstallInput : Type 0 where
  pub forum_name : Text
  pub admin_username : Text
  pub admin_email : Text
  pub admin_password : Text

-- json.Unmarshal into a bool and into a string.
abbrev pub as_flag : Setting → M Bool
as_flag (flag_value b) = pure b
as_flag (text_value t) = raise (failure bad_json)

abbrev pub as_text : Setting → M (Option Text)
as_text (flag_value b) = raise (failure bad_json)
as_text (text_value t) = pure (some t)

-- A setting that is not there has the default value.
unfoldable pub got_or {ℓ} : {A : Type ℓ} → A → (Setting → M A) → Outcome Setting → Outcome A
got_or default read (ok v w) = read v w
got_or default read (err e w) = if is_not_found e then ok default w else err e w

unfoldable pub get_or {ℓ} : {A : Type ℓ} → A → Text → (Setting → M A) → M A
unfolding got_or
get_or default key read w = got_or default read (Settings.get key w)

unfoldable pub status : M InstallStatus
unfolding get_or
status = do
  installed ← get_or false key_installed as_flag
  forum_name ← get_or none key_forum_name as_text
  pure (record { installed = installed; forum_name = forum_name })

-- The tests of Setup on trimmed values, any of which is ErrInvalidInput.
unfoldable pub is_acceptable : Text → Text → Text → Text → Bool
is_acceptable forum_name username email password =
    not (is_empty forum_name || ltb 100 (rune_count forum_name))
    && (not (ltb (length password) 8)
        && (not (
              ltb (rune_count username) 3
              || (ltb 32 (rune_count username) || not (match_string username_re username)))
            && match_string email_re email))

-- Setup, past the status test and the trimming.
unfoldable pub install : Text → Text → Text → Text → M User
unfolding is_acceptable
install forum_name username email password = do
  refuse_if (not (is_acceptable forum_name username email password)) invalid_input
  hash ← Password.hash default_params password
  user ←
      handle
        (User.create (record {
          username = username;
          email = email;
          password_hash = hash;
          display_name = username;
        }))
        (conflict_as conflict)
  User.add_member_role user.id
  User.assign_role user.id role_admin
  Settings.set key_installed (flag_value true)
  Settings.set key_forum_name (text_value forum_name)
  pure user

unfoldable pub setup : InstallInput → M User
unfolding status install
setup input = do
  st ← status
  refuse_if st.installed already_installed
  install (trim_space input.forum_name) (trim_space input.admin_username)
      (trim_space input.admin_email) input.admin_password
