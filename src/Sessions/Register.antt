-- ===== src/Sessions/Register.antt =====
-- What a registration that succeeds has checked.
use masonic_core.Prelude.{
  ℕ, Bool, ◌≤◌, ◌≡◌, refl, sym, ap, ◌∙◌, true, false, List, [], ◌∷◌, arith, ltb, length, any_row,
}
use masonic_core.Text.{Text, text_eq}
use masonic_core.Models.{status_active, role_member, User, NewUser, Role}
use masonic_core.World.{Database, Env, World, ok, pure, next, Stamp, stamp, rows}
use masonic_core.Text.Space.{trim_space}
use masonic_core.Text.Regex.{match_string}
use masonic_core.Services.Patterns.{username_re, email_re}
use masonic_core.Store.User
use masonic_core.Store.User.{insert_user, taken}
use masonic_core.Services.Auth as AuthService
use masonic_core.Auth.Password
use masonic_core.Auth.Password.{default_params}
use masonic_core.Sessions.Refresh.{random-eq-ok}
use masonic_core.World.Rules.{
  ok-inj, continue-eq-ok, resume-eq-ok, refuse_if-eq-ok, statement-eq-ok,
}
use masonic_core.Access.Reads.{not-false}

long_enough : (n : ℕ) → ltb n 8 ≡ false → 8 ≤ n
long_enough n h = ground arith

validate-eq-ok :
    (username email password : Text) (w : World) (x : Unit {0}) (w' : World)
    → AuthService.validate username email password w ≡ ok x w'
    → (w' ≡ w)
      × (match_string username_re username ≡ true)
      × (match_string email_re email ≡ true)
      × (8 ≤ length password)
unfolding AuthService.validate
validate-eq-ok username email password w x w' h =
    let (_, v, e, g) = continue-eq-ok _ _ x w' h in
    let (a, same) = refuse_if-eq-ok _ _ w _ v e in
    let (_, v2, e2, g2) = continue-eq-ok _ _ x w' g in
    let (b, same2) = refuse_if-eq-ok _ _ v _ v2 e2 in
    let (c, same3) = refuse_if-eq-ok _ _ v2 x w' g2 in
    (same3 ∙ same2 ∙ same, not-false _ a, not-false _ b, long_enough (length password) c)

-- The unique keys split.
any-taken :
    (st : Stamp) (nu : NewUser) (us : List User)
    → any_row (taken st nu) us ≡ false
    → (any_row (λ u. text_eq u.email nu.email) us ≡ false)
      × (any_row (λ u. text_eq (st.lower u.username) (st.lower nu.username)) us ≡ false)
unfolding any_row taken
any-taken st nu [] h = (refl, refl)
any-taken st nu (u ∷ us) h = ground (arith, any-taken st nu us)

insert_user-eq-rows :
    (nu : NewUser) (st : Stamp) (d : Database) (u : User) (d' : Database)
    → insert_user nu st d ≡ rows u d'
    → (u.username ≡ nu.username)
      × (u.email ≡ nu.email)
      × (u.status ≡ status_active)
      × (any_row (taken st nu) d.users ≡ false)
      × (d'.users ≡ u ∷ d.users)
unfolding insert_user User.new_row
insert_user-eq-rows nu st d u d' e = ground arith

roles-users :
    (id : ℕ) (p : Role → Bool) (st : Stamp) (d : Database) (n : ℕ) (d' : Database)
    → User.insert_roles id p st d ≡ rows n d'
    → d'.users ≡ d.users
unfolding User.insert_roles
roles-users id p st d n d' e = ground arith

member-users :
    (id : ℕ) (w : World) (x : Unit {0}) (w' : World)
    → User.add_member_role id w ≡ ok x w'
    → w'.db.users ≡ w.db.users
unfolding User.add_member_role User.assign_role
member-users id w x w' h =
    let (n, v, e, g) = continue-eq-ok _ _ x w' h in
    let (d, q, same) =
      statement-eq-ok (User.insert_roles id (λ r. text_eq r.key role_member)) w n v e in
    ap (λ (z : World). z.db.users) (sym (ok-inj _ x v w' g).1)
    ∙ ap (λ (z : World). z.db.users) same
    ∙ roles-users id _ (stamp w) w.db n d q

hash-eq-ok :
    (password : Text) (w : World) (x : Text) (w' : World)
    → Password.hash default_params password w ≡ ok x w'
    → w' ≡ next w
unfolding Password.hash
hash-eq-ok password w x w' h =
    let (salt, v, e, g) = continue-eq-ok _ _ x w' h in
    sym (ok-inj _ x v w' g).1 ∙ random-eq-ok _ w salt v e

-- A registration that succeeds stores one new row in front of the users, and this row is the user that it returns: an
-- active user of the name and the address without the spaces around them. Both have the form that they need, the password without the spaces around it has at
-- least eight bytes, and no user had that address, or that name in whatever case.
pub register-eq-ok :
    (username email password : Text) (w : World) (u : User) (w' : World)
    → AuthService.register username email password w ≡ ok u w'
    → (u.username ≡ trim_space username)
      × (u.email ≡ trim_space email)
      × (u.status ≡ status_active)
      × (match_string username_re (trim_space username) ≡ true)
      × (match_string email_re (trim_space email) ≡ true)
      × (8 ≤ length (trim_space password))
      × (any_row (λ r. text_eq r.email (trim_space email)) w.db.users ≡ false)
      × (any_row
            (λ r. text_eq (w.env.lower r.username) (w.env.lower (trim_space username)))
            w.db.users
          ≡ false)
      × (w'.db.users ≡ u ∷ w.db.users)
unfolding AuthService.register AuthService.register_trimmed User.create
register-eq-ok username email password w u w' h =
    let (_, v, e, g) = continue-eq-ok _ _ u w' h in
    let (same, name, address, long) = validate-eq-ok _ _ _ w _ v e in
    let (hash, v2, e2, g2) = continue-eq-ok _ _ u w' g in
    let hashed = hash-eq-ok (trim_space password) v hash v2 e2 in
    let (r, v3, e3, g3) = continue-eq-ok _ _ u w' g2 in
    let nu : NewUser = record {
      username = trim_space username;
      email = trim_space email;
      password_hash = hash;
      display_name = trim_space username;
    } in
    let (d, q, to) =
      statement-eq-ok (insert_user nu) v2 r v3 (resume-eq-ok _ _ r v3 (resume-eq-ok _ _ r v3 e3)) in
    let (is_name, is_address, active, free, grown) =
      insert_user-eq-rows nu (stamp v2) v2.db r d q in
    let (z, v4, e4, g4) = continue-eq-ok (User.add_member_role r.id v3) (λ _. pure r) u w' g3 in
    let (who, last) = ok-inj r u v4 w' g4 in
    let (free_address, free_name) = any-taken (stamp v2) nu v2.db.users free in
    let db : w.db ≡ v2.db = sym (ap (λ (z : World). z.db) hashed ∙ ap (λ (z : World). z.db) same) in
    let env : w.env ≡ v2.env =
      sym (ap (λ (z : World). z.env) hashed ∙ ap (λ (z : World). z.env) same) in
    (
      ap (λ (z : User). z.username) (sym who) ∙ is_name,
      ap (λ (z : User). z.email) (sym who) ∙ is_address,
      ap (λ (z : User). z.status) (sym who) ∙ active,
      name,
      address,
      long,
      ap (λ (b : Database). any_row (λ r. text_eq r.email (trim_space email)) b.users) db
          ∙ free_address,
      ap
            (λ (b : Database).
              any_row (λ r. text_eq (w.env.lower r.username) (w.env.lower (trim_space username)))
                b.users)
            db
          ∙ ap
              (λ (o : Env).
                any_row (λ r. text_eq (o.lower r.username) (o.lower (trim_space username)))
                  v2.db.users)
              env
          ∙ free_name,
      ap (λ (z : World). z.db.users) (sym last)
          ∙ member-users r.id v3 z v4 e4
          ∙ ap (λ (z : World). z.db.users) to
          ∙ grown
          ∙ ap (λ (b : User). b ∷ v2.db.users) who
          ∙ ap (λ (b : Database). u ∷ b.users) (sym db),
    )
