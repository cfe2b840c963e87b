-- ===== src/Store/User.antt =====
-- internal/store/user.go
use masonic_core.Prelude.{
  ℕ, Bool, true, false, ◌&&◌, ◌||◌, not, Option, none, some, List, [], ◌∷◌, ◌++◌, map, ltb, ◌==◌,
  if◌then◌else◌, length, find_row, any_row, keep_rows, update_rows, order_rows, page,
}
use masonic_core.Text.{Text, text_eq, is_listed}
use masonic_core.Models.{status_active, role_member, User, UserWithRoles, NewUser, Role}
use masonic_core.World.{
  Database, unique_violation, foreign_key_violation, missing_role_keys, Error, row_not_found,
  row_conflict, failure, M, pure, raise, handle, ◌>>=◌, ◌>>◌, refuse_if, Stamp, scanned, rows,
  fault, Sql, statement, transaction,
}
use masonic_core.Store.Cascade.{has_user}

-- The unique keys of `users`: id, email, and lower(username).
unfoldable pub taken : Stamp → NewUser → User → Bool
taken st nu u =
    u.id == st.uuid
    || (text_eq u.email nu.email || text_eq (st.lower u.username) (st.lower nu.username))

unfoldable pub new_row : Stamp → NewUser → User
new_row st nu = record {
  id = st.uuid;
  username = nu.username;
  email = nu.email;
  password_hash = nu.password_hash;
  display_name = nu.display_name;
  avatar_url = [];
  status = status_active;
  created_at = st.now;
  updated_at = st.now;
  last_seen_at = none;
}

unfoldable pub insert_user : NewUser → Sql User
unfolding taken new_row
insert_user nu st d =
    if any_row (taken st nu) d.users
    then fault unique_violation
    else rows (new_row st nu) (record d { users = new_row st nu ∷ d.users })

-- The code 23505 of PostgreSQL.
unfoldable pub is_unique_violation : Error → Bool
is_unique_violation (failure unique_violation) = true
is_unique_violation _ = false

unfoldable pub create : NewUser → M User
unfolding insert_user is_unique_violation
create nu =
    handle (statement (insert_user nu))
      λ e. raise (if is_unique_violation e then row_conflict else e)

-- ErrNoRows becomes ErrNotFound.
unfoldable pub scan_one : Option User → M User
scan_one none = raise row_not_found
scan_one (some u) = pure u

unfoldable pub select_user : (Stamp → User → Bool) → Sql (Option User)
select_user p st d = rows (find_row (p st) d.users) d

unfoldable pub get_by_username : Text → M User
unfolding select_user scan_one
get_by_username username = do
  row ← statement (select_user (λ st u. text_eq (st.lower u.username) (st.lower username)))
  scan_one row

-- No unique key has the address in lower case: QueryRow takes the first row that is scanned.
unfoldable pub select_by_email : Text → Sql (Option User)
unfolding scanned
select_by_email email st d =
    rows
      (find_row (λ u. text_eq (st.lower u.email) (st.lower email)) (scanned (λ u. u.id) st d.users))
      d

unfoldable pub get_by_email : Text → M User
unfolding select_by_email scan_one
get_by_email email = do row ← statement (select_by_email email); scan_one row

unfoldable pub get_by_id : ℕ → M User
unfolding select_user scan_one
get_by_id id = do row ← statement (select_user (λ st u. u.id == id)); scan_one row

-- The roles that `user_roles` gives to a user.
unfoldable pub has_role_row : Database → ℕ → Role → Bool
has_role_row d user_id r = any_row (λ ur. ur.user_id == user_id && ur.role_id == r.id) d.user_roles

unfoldable pub role_keys : Stamp → Database → ℕ → List Text
unfolding has_role_row
role_keys st d user_id =
    order_rows st.before (map (λ r. r.key) (keep_rows (has_role_row d user_id) d.roles))

unfoldable pub select_roles : ℕ → Sql (List Text)
unfolding role_keys
select_roles user_id st d = rows (role_keys st d user_id) d

unfoldable pub roles_for_user : ℕ → M (List Text)
unfolding select_roles
roles_for_user user_id = statement (select_roles user_id)

-- INSERT INTO user_roles of a user with each of the roles.
unfoldable pub insert_roles : ℕ → (Role → Bool) → Sql ℕ
unfolding has_role_row
insert_roles user_id p st d =
    let found = keep_rows p d.roles in
    if length found == 0
    then rows 0 d
    else if not (has_user user_id d)
    then fault foreign_key_violation
    else if any_row (has_role_row d user_id) found
    then fault unique_violation
    else rows (length found) (record d {
      user_roles = map (λ r. record { user_id = user_id; role_id = r.id }) found ++ d.user_roles;
    })

unfoldable pub assign_role : ℕ → Text → M (Unit {0})
unfolding insert_roles
assign_role user_id key = do _ ← statement (insert_roles user_id (λ r. text_eq r.key key)); pure tt

unfoldable pub add_member_role : ℕ → M (Unit {0})
unfolding assign_role
add_member_role user_id = assign_role user_id role_member

unfoldable pub update_user : ℕ → (Stamp → User → User) → Sql (Option User)
update_user id f st d =
    let users = update_rows (λ u. u.id == id) (f st) d.users in
    rows (find_row (λ u. u.id == id) users) (record d { users = users })

unfoldable pub update_avatar : ℕ → Text → M User
unfolding update_user scan_one
update_avatar user_id avatar_url = do
  row ←
      statement
        (update_user user_id (λ st u. record u { avatar_url = avatar_url; updated_at = st.now }))
  scan_one row

unfoldable pub count_users : Sql ℕ
count_users st d = rows (length d.users) d

-- ORDER BY created_at DESC, id
unfoldable pub newer : User → User → Bool
newer a b = ltb b.created_at a.created_at || a.created_at == b.created_at && ltb a.id b.id

unfoldable pub select_users : ℕ → ℕ → Sql (List UserWithRoles)
unfolding newer role_keys
select_users limit offset st d =
    rows
      (map (λ u. record { user = u; roles = role_keys st d u.id })
        (page limit offset (order_rows newer d.users)))
      d

unfoldable pub list : ℕ → ℕ → M (List UserWithRoles × ℕ)
unfolding count_users select_users
list limit offset = do
  total ← statement count_users
  items ← statement (select_users limit offset)
  pure (items, total)

unfoldable pub delete_roles : ℕ → Sql (Unit {0})
delete_roles user_id st d =
    rows tt (record d { user_roles = keep_rows (λ ur. not (ur.user_id == user_id)) d.user_roles })

-- The INSERT of UpdateRoles and its check of the rows affected.
unfoldable pub add_roles : ℕ → List Text → M (Unit {0})
unfolding insert_roles
add_roles user_id [] = pure tt
add_roles user_id (k ∷ ks) = do
  n ← statement (insert_roles user_id (λ r. is_listed r.key (k ∷ ks)))
  refuse_if (not (n == length (k ∷ ks))) (failure missing_role_keys)

unfoldable pub update_roles : ℕ → List Text → M (Unit {0})
unfolding delete_roles add_roles
update_roles user_id keys =
    transaction (do statement (delete_roles user_id); add_roles user_id keys)

unfoldable pub update_status : ℕ → Text → M User
unfolding update_user scan_one
update_status user_id status = do
  row ← statement (update_user user_id (λ st u. record u { status = status; updated_at = st.now }))
  scan_one row
