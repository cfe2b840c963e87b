-- ===== src/Services/Group.antt =====
-- internal/services/group.go
use masonic_core.Prelude.{ℕ, Bool, ◌&&◌, ◌||◌, not, List, ltb, if◌then◌else◌, length, has_value}
use masonic_core.Models.{Group, NewGroup}
use masonic_core.World.{
  Error, group_not_found, invalid_input, conflict, not_empty, M, raise, handle, ◌>>=◌, ◌>>◌,
  refuse_if, is_not_found, is_conflict, missing_as, conflict_as,
}
use masonic_core.Text.Space.{trim_space}
use masonic_core.Text.Runes.{rune_count}
use masonic_core.Text.Regex.{match_string}
use masonic_core.Config.{is_empty}
use masonic_core.Store.Group
use masonic_core.Store.Thread
use masonic_core.Services.Patterns.{slug_re}

abbrev pub max_group_name_len : ℕ
max_group_name_len = 100

abbrev pub max_group_description_len : ℕ
max_group_description_len = 2000

abbrev pub max_slug_len : ℕ
max_slug_len = 80

-- validateGroup; GroupInput has the fields of NewGroup.
unfoldable pub is_acceptable : NewGroup → Bool
is_acceptable g =
    not (is_empty (trim_space g.name) || ltb max_group_name_len (rune_count (trim_space g.name)))
    && (not (
          not (match_string slug_re (trim_space g.slug))
          || ltb max_slug_len (length (trim_space g.slug)))
        && (not (ltb max_group_description_len (rune_count g.description))
            && not (has_value g.parent_id 0)))

unfoldable pub list : M (List Group)
list = Group.list

unfoldable pub get : ℕ → M Group
get id = handle (Group.get_by_id id) (missing_as group_not_found)

unfoldable pub create : NewGroup → M Group
unfolding is_acceptable
create g = do
  refuse_if (not (is_acceptable g)) invalid_input
  handle (Group.create g) (conflict_as conflict)

-- ErrNotFound and ErrConflict of the store.
abbrev pub update_error : Error → Error
update_error e = if is_not_found e then group_not_found else if is_conflict e then conflict else e

unfoldable pub update : ℕ → NewGroup → M Group
unfolding is_acceptable
update id g = do
  refuse_if (not (is_acceptable g)) invalid_input
  handle (Group.update id g) (λ e. raise (update_error e))

unfoldable pub delete : ℕ → M (Unit {0})
delete id = do
  _ ← handle (Group.get_by_id id) (missing_as group_not_found)
  n ← Thread.count_by_group id
  refuse_if (ltb 0 n) not_empty
  handle (Group.delete id) (missing_as group_not_found)
