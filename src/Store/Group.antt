-- ===== src/Store/Group.antt =====
-- internal/store/group.go
use masonic_core.Prelude.{
  ℕ, Bool, ◌&&◌, ◌||◌, not, Option, none, some, List, ◌∷◌, ◌==◌, if◌then◌else◌, find_row, any_row,
  count_rows, update_rows, order_rows, ltb_int, beyond_int4,
}
use masonic_core.Text.{Text, text_eq}
use masonic_core.Models.{Group, NewGroup}
use masonic_core.World.{
  Database, unique_violation, foreign_key_violation, out_of_range, row_not_found, row_conflict, M,
  pure, raise, handle, ◌>>=◌, refuse_if, Stamp, rows, fault, Sql, statement,
}
use masonic_core.Store.User.{is_unique_violation}
use masonic_core.Store.Cascade.{has_group, null_or, delete_group}

new_row : Stamp → NewGroup → Group
new_row st ng = record {
  id = st.uuid;
  name = ng.name;
  slug = ng.slug;
  description = ng.description;
  parent_id = ng.parent_id;
  sort_order = ng.sort_order;
  created_at = st.now;
  updated_at = st.now;
}

-- The unique keys `name` and `slug`.
unfoldable pub clashes : NewGroup → Group → Bool
clashes ng g = text_eq g.name ng.name || text_eq g.slug ng.slug

unfoldable pub insert_group : NewGroup → Sql Group
unfolding new_row clashes
insert_group ng st d =
    if beyond_int4 ng.sort_order
    then fault out_of_range
    else if any_row (λ g. g.id == st.uuid || clashes ng g) d.groups
    then fault unique_violation
    else if not (null_or (λ id. has_group id d) ng.parent_id)
    then fault foreign_key_violation
    else rows (new_row st ng) (record d { groups = new_row st ng ∷ d.groups })

unfoldable pub scan_group : Option Group → M Group
scan_group none = raise row_not_found
scan_group (some g) = pure g

unfoldable pub create : NewGroup → M Group
unfolding insert_group is_unique_violation
create ng =
    handle (statement (insert_group ng))
      λ e. raise (if is_unique_violation e then row_conflict else e)

-- ORDER BY sort_order, name
sorts_before : Stamp → Group → Group → Bool
sorts_before st a b =
    ltb_int a.sort_order b.sort_order
    || not (ltb_int b.sort_order a.sort_order) && st.before a.name b.name

unfoldable pub select_groups : Sql (List Group)
unfolding sorts_before
select_groups st d = rows (order_rows (sorts_before st) d.groups) d

unfoldable pub list : M (List Group)
unfolding select_groups
list = statement select_groups

unfoldable pub select_group : (Group → Bool) → Sql (Option Group)
select_group p st d = rows (find_row p d.groups) d

unfoldable pub get_by_id : ℕ → M Group
unfolding select_group scan_group
get_by_id id = do row ← statement (select_group (λ g. g.id == id)); scan_group row

unfoldable pub get_by_slug : Text → M Group
unfolding select_group scan_group
get_by_slug slug = do row ← statement (select_group (λ g. text_eq g.slug slug)); scan_group row

unfoldable pub changed : Stamp → NewGroup → Group → Group
changed st ng g = record g {
  name = ng.name;
  slug = ng.slug;
  description = ng.description;
  parent_id = ng.parent_id;
  sort_order = ng.sort_order;
  updated_at = st.now;
}

-- Another row than the updated one has the new name or slug.
unfoldable pub clashes_elsewhere : ℕ → NewGroup → Database → Bool
unfolding clashes
clashes_elsewhere id ng d = any_row (λ g. not (g.id == id) && clashes ng g) d.groups

unfoldable pub update_group : ℕ → NewGroup → Sql (Option Group)
unfolding changed clashes_elsewhere
update_group id ng st d =
    if beyond_int4 ng.sort_order
    then fault out_of_range
    else if not (has_group id d)
    then rows none d
    else if clashes_elsewhere id ng d
    then fault unique_violation
    else if not (null_or (λ id. has_group id d) ng.parent_id)
    then fault foreign_key_violation
    else let groups = update_rows (λ g. g.id == id) (changed st ng) d.groups in
      rows (find_row (λ g. g.id == id) groups) (record d { groups = groups })

unfoldable pub update : ℕ → NewGroup → M Group
unfolding update_group scan_group
update id ng = do row ← statement (update_group id ng); scan_group row

unfoldable pub delete_row : ℕ → Sql ℕ
delete_row id st d = rows (count_rows (λ g. g.id == id) d.groups) (delete_group id d)

unfoldable pub delete : ℕ → M (Unit {0})
unfolding delete_row
delete id = do n ← statement (delete_row id); refuse_if (n == 0) row_not_found
