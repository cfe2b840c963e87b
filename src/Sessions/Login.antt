-- ===== src/Sessions/Login.antt =====
-- What a login that succeeds has checked.
use masonic_core.Prelude.{
  ◌⊎◌, ◌≡◌, refl, sym, ap, ◌∙◌, subst, inl, inr, Bool, true, false, not, Option, none, some, ◌∷◌,
  if◌then◌else◌, Bool-cases, any_row,
}
use masonic_core.Text.{Text, text_eq}
use masonic_core.Models.{status_active, User, Session}
use masonic_core.World.{
  Database, Env, World, Error, invalid_credentials, user_not_active, Outcome, ok, final, raise,
  handle, is_not_found,
}
use masonic_core.Text.Space.{trim_space}
use masonic_core.Config.{Config}
use masonic_core.Auth.Password
use masonic_core.Auth.Password.{Check, matches, differs, broken}
use masonic_core.Store.User
use masonic_core.Services.Auth as AuthService
use masonic_core.Services.Auth.{Tokens}
use masonic_core.Sessions.Refresh.{issue-eq-ok}
use masonic_core.Sessions.Lookup.{by_name, HasAddress, find_login-row}
use masonic_core.World.Steady.{IsSteady, steady_rules}
use masonic_core.World.Rules.{Keeps, keeps_rules, KeepsSql-read, continue-eq-ok, refuse_if-eq-ok}
use masonic_core.Access.Reads.{not-false}

scan_one-Keeps : {P : Database → Type 0} (o : Option User) → Keeps P (User.scan_one o)
unfolding User.scan_one
scan_one-Keeps none = search keeps_rules
scan_one-Keeps (some u) = search keeps_rules

by_username-Keeps : {P : Database → Type 0} (s : Text) → Keeps P (User.get_by_username s)
unfolding User.get_by_username User.select_user
by_username-Keeps s = search (keeps_rules, KeepsSql-read, scan_one-Keeps)

by_email-Keeps : {P : Database → Type 0} (s : Text) → Keeps P (User.get_by_email s)
unfolding User.get_by_email User.select_by_email
by_email-Keeps s = search (keeps_rules, KeepsSql-read, scan_one-Keeps)

email_after :
    {P : Database → Type 0} (s : Text) (e : Error)
    → Keeps P (
        if is_not_found e
        then handle (User.get_by_email s) (λ _. raise invalid_credentials)
        else raise e)
email_after s e = elim (Bool-cases (is_not_found e)) [
  | inl b ↦ rw b (search (keeps_rules, by_email-Keeps))
  | inr b ↦ rw b (search keeps_rules)
]

find_login-Keeps : {P : Database → Type 0} (s : Text) → Keeps P (AuthService.find_login s)
unfolding AuthService.find_login
find_login-Keeps s = search (keeps_rules, by_username-Keeps, email_after)

find_login-eq-ok :
    (s : Text) (w : World) (u : User) (w' : World)
    → AuthService.find_login s w ≡ ok u w'
    → w'.db ≡ w.db
find_login-eq-ok s w u w' h =
    subst (λ (r : Outcome User). (final r).db ≡ w.db) h
      ((find_login-Keeps {P = λ d. d ≡ w.db} s).at w refl)

scan_one-IsSteady : (o : Option User) → IsSteady (User.scan_one o)
unfolding User.scan_one
scan_one-IsSteady none = search steady_rules
scan_one-IsSteady (some u) = search steady_rules

by_email-IsSteady : (s : Text) → IsSteady (User.get_by_email s)
unfolding User.get_by_email
by_email-IsSteady s = search (steady_rules, scan_one-IsSteady)

email_after-IsSteady :
    (s : Text) (e : Error)
    → IsSteady (
        if is_not_found e
        then handle (User.get_by_email s) (λ _. raise invalid_credentials)
        else raise e)
email_after-IsSteady s e = elim (Bool-cases (is_not_found e)) [
  | inl b ↦ rw b (search (steady_rules, by_email-IsSteady))
  | inr b ↦ rw b (search steady_rules)
]

find_login-IsSteady : (s : Text) → IsSteady (AuthService.find_login s)
unfolding AuthService.find_login User.get_by_username
find_login-IsSteady s = search (steady_rules, scan_one-IsSteady, email_after-IsSteady)

find_login-env :
    (s : Text) (w : World) (u : User) (w' : World)
    → AuthService.find_login s w ≡ ok u w'
    → w'.env ≡ w.env
find_login-env s w u w' h =
    subst (λ (r : Outcome User). (final r).env ≡ w.env) h ((find_login-IsSteady s).at w)

answer-eq-ok :
    (c : Check) (w : World) (b : Bool) (w' : World)
    → Password.answer c w ≡ ok b w'
    → not b ≡ false
    → (c ≡ matches) × (w' ≡ w)
answer-eq-ok matches w b w' h k = (refl, cc)
answer-eq-ok differs w b w' h k = cc
answer-eq-ok (broken f) w b w' h k = cc

-- A login that succeeds is one of an active user of the table: its name is the identifier without the
-- spaces around it, in whatever case, or no user has that name and its address is that, in whatever
-- case. The password
-- matches the stored hash of this user, as it is given, without the spaces around it being cut. The
-- login opens one session, of this user, under the digest of the refresh token that it returns, which
-- no other session has as its token hash, and writes nothing else.
pub login-eq-ok :
    (cfg : Config) (identifier password user_agent ip : Text) (w : World) (x : Tokens) (w' : World)
    → AuthService.login cfg identifier password user_agent ip w ≡ ok x w'
    → ((by_name w (trim_space identifier) ≡ some x.user)
        ⊎ ((by_name w (trim_space identifier) ≡ none)
            × HasAddress w (trim_space identifier) x.user))
      × (text_eq x.user.status status_active ≡ true)
      × (Password.check w.env password x.user.password_hash ≡ matches)
      × ((s : Session) × (w'.db ≡ record w.db { sessions = s ∷ w.db.sessions })
          × (s.user_id ≡ x.user.id)
          × (s.token_hash ≡ w.env.digest x.refresh_token)
          × (any_row (λ r. text_eq r.token_hash s.token_hash) w.db.sessions ≡ false))
unfolding AuthService.login AuthService.login_trimmed Password.verify
login-eq-ok cfg identifier password user_agent ip w x w' h =
    let (user, v, e, g) = continue-eq-ok _ _ x w' h in
    let here = find_login-eq-ok (trim_space identifier) w user v e in
    let (_, v2, e2, g2) = continue-eq-ok _ _ x w' g in
    let (active, same2) = refuse_if-eq-ok _ user_not_active v _ v2 e2 in
    let (b, v3, e3, g3) = continue-eq-ok _ _ x w' g2 in
    let (_, v4, e4, g4) = continue-eq-ok _ _ x w' g3 in
    let (matched, same4) = refuse_if-eq-ok _ invalid_credentials v3 _ v4 e4 in
    let (right, same3) = answer-eq-ok _ v2 b v3 e3 matched in
    let env : v2.env ≡ w.env =
      ap (λ (u : World). u.env) same2 ∙ find_login-env (trim_space identifier) w user v e in
    let (s, _, opened, fresh, who, owner, key) = issue-eq-ok cfg user user_agent ip v4 x w' g4 in
    let there : v4.db ≡ w.db = ap (λ (u : World). u.db) (same4 ∙ same3 ∙ same2) ∙ here in
    let env4 : v4.env ≡ w.env = ap (λ (u : World). u.env) (same4 ∙ same3) ∙ env in
    (
      subst
          (λ (u : User).
            (by_name w (trim_space identifier) ≡ some u)
            ⊎ ((by_name w (trim_space identifier) ≡ none) × HasAddress w (trim_space identifier) u))
          (sym who) (find_login-row (trim_space identifier) w user v e),
      ap (λ (u : User). text_eq u.status status_active) who ∙ not-false _ active,
      ap (λ (u : User). Password.check w.env password u.password_hash) who
          ∙ ap (λ (o : Env). Password.check o password user.password_hash) (sym env)
          ∙ right,
      (
        s,
        opened ∙ ap (λ (b : Database). record b { sessions = s ∷ b.sessions }) there,
        owner ∙ ap (λ (u : User). u.id) (sym who),
        key ∙ ap (λ (o : Env). o.digest x.refresh_token) env4,
        ap (λ (b : Database). any_row (λ r. text_eq r.token_hash s.token_hash) b.sessions)
              (sym there)
            ∙ fresh,
      ),
    )
