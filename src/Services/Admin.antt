-- ===== src/Services/Admin.antt =====
-- internal/services/admin.go
use masonic_core.Prelude.{
  ℕ, Bool, ◌||◌, not, Option, none, some, List, [], ◌∷◌, map, ltb, ◌==◌, if◌then◌else◌, length,
  all_rows,
}
use masonic_core.Text.{Text, to_lower, is_listed}
use masonic_core.Models.{
  status_active, status_banned, status_pending, role_admin, role_moderator, role_member,
  UserWithRoles, AttachmentWithOwner,
}
use masonic_core.World.{
  Setting, flag_value, text_value, Error, user_not_found, invalid_input, conflict, Outcome, ok, err,
  M, pure, raise, handle, ◌>>=◌, ◌>>◌, refuse_if, is_not_found, is_conflict,
}
use masonic_core.Text.Space.{trim_space}
use masonic_core.Text.Runes.{rune_count}
use masonic_core.Config.{is_empty}
use masonic_core.Store.User
use masonic_core.Store.Attachment
use masonic_core.Store.Settings
use masonic_core.Services.Install.{key_forum_name}

-- allowedRoles and allowedStatus
abbrev pub allowed_roles : List Text
allowed_roles = role_admin ∷ role_moderator ∷ role_member ∷ []

abbrev pub allowed_status : List Text
allowed_status = status_active ∷ status_banned ∷ status_pending ∷ []

abbrev pub max_forum_name : ℕ
max_forum_name = 100

-- mapUserErr
abbrev pub map_user_err : Error → Error
map_user_err e = if is_not_found e then user_not_found else if is_conflict e then conflict else e

unfoldable pub list_users : ℕ → ℕ → M (List UserWithRoles × ℕ)
list_users limit offset = User.list limit offset

unfoldable pub change_status : ℕ → Option Text → M (Unit {0})
change_status id none = pure tt
change_status id (some status) = do
  refuse_if (not (is_listed status allowed_status)) invalid_input
  _ ← handle (User.update_status id status) (λ e. raise (map_user_err e))
  pure tt

unfoldable pub roles_allowed : List Text → Bool
roles_allowed rs = all_rows (λ r. is_listed (to_lower r) allowed_roles) rs

unfoldable pub change_roles : ℕ → Option (List Text) → M (Unit {0})
unfolding roles_allowed
change_roles id none = pure tt
change_roles id (some rs) = do
  refuse_if (length rs == 0) invalid_input
  refuse_if (not (roles_allowed rs)) invalid_input
  handle (User.update_roles id (map to_lower rs)) (λ e. raise (map_user_err e))

unfoldable pub update_user : ℕ → Option (List Text) → Option Text → M UserWithRoles
unfolding change_status change_roles
update_user id rs status = do
  change_status id status
  change_roles id rs
  u ← handle (User.get_by_id id) (λ e. raise (map_user_err e))
  keys ← User.roles_for_user id
  pure (record { user = u; roles = keys })

unfoldable pub list_media : ℕ → ℕ → M (List AttachmentWithOwner × ℕ)
list_media limit offset = Attachment.list limit offset

-- A name that cannot be read is the empty one, whatever the error.
unfoldable pub forum_name_of : Outcome Setting → Outcome Text
forum_name_of (ok (text_value t) w) = ok t w
forum_name_of (ok (flag_value b) w) = ok [] w
forum_name_of (err e w) = ok [] w

unfoldable pub get_settings : M Text
unfolding forum_name_of
get_settings w = forum_name_of (Settings.get key_forum_name w)

-- UpdateSettings, past the trimming.
unfoldable pub set_forum_name : Text → M Text
set_forum_name name = do
  refuse_if (is_empty name || ltb max_forum_name (rune_count name)) invalid_input
  Settings.set key_forum_name (text_value name)
  pure name

unfoldable pub update_settings : Text → M Text
unfolding set_forum_name
update_settings name = set_forum_name (trim_space name)
