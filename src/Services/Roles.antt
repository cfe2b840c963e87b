-- ===== src/Services/Roles.antt =====
-- `hasRole` of internal/services/errors.go.
use masonic_core.Prelude.{Bool, false, ◌||◌, List, [], ◌∷◌}
use masonic_core.Text.{Text, is_listed}
use masonic_core.Models.{role_admin, role_moderator}

-- The two loops: any of the keys is any of the roles.
unfoldable pub has_role : List Text → List Text → Bool
has_role [] keys = false
has_role (r ∷ rs) keys = is_listed r keys || has_role rs keys

-- hasRole(roles, models.RoleAdmin, models.RoleModerator)
unfoldable pub is_moderator : List Text → Bool
unfolding has_role is_listed
is_moderator roles = has_role roles (role_admin ∷ role_moderator ∷ [])
