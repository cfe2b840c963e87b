-- ===== src/Sessions/Lookup.antt =====
-- Which row a login finds: internal/services/auth.go with internal/store/user.go.
use masonic_core.Prelude.{subst, All-find, All-order_rows, All-Mem}
use mathlib.Core.List.{Mem}
use masonic_core.World.{scanned}
use masonic_core.Prelude.{
  ◌≡◌, refl, ◌∙◌, ◌⊎◌, inl, inr, true, Option, none, some, if◌then◌else◌, Bool-cases, find_row,
}
use masonic_core.Text.{Text, text_eq}
use masonic_core.Models.{User}
use masonic_core.World.{
  World, Error, invalid_credentials, Outcome, ok, err, raise, handle, resume, is_not_found, next,
  statement,
}
use masonic_core.Store.User
use masonic_core.Services.Auth as AuthService
use masonic_core.World.Rules.{handle-eq-ok}
use masonic_core.Access.Reads.{found-eq-ok}
use masonic_core.Sessions.Refresh.{scan_one-eq-ok}

-- The row of a name, and a row with an address, in whatever case.
abbrev pub by_name : World → Text → Option User
by_name w s = find_row (λ u. text_eq (w.env.lower u.username) (w.env.lower s)) w.db.users

abbrev pub HasAddress : World → Text → User → Type 0
HasAddress w s u = Mem u w.db.users × (text_eq (w.env.lower u.email) (w.env.lower s) ≡ true)

by_username-eq-ok :
    (s : Text) (w : World) (u : User) (w' : World)
    → User.get_by_username s w ≡ ok u w'
    → by_name w s ≡ some u
unfolding User.get_by_username User.select_user
by_username-eq-ok s w u w' h = (found-eq-ok _ User.scan_one w u w' (scan_one-eq-ok u w') h).0

by_email-eq-ok :
    (s : Text) (w : World) (u : User) (w' : World)
    → User.get_by_email s w ≡ ok u w'
    → HasAddress w s u
unfolding User.get_by_email User.select_by_email scanned
by_email-eq-ok s w u w' h =
    let (found, _) = found-eq-ok _ User.scan_one w u w' (scan_one-eq-ok u w') h in
    All-find (λ k. Mem k w.db.users) (λ k. text_eq (w.env.lower k.email) (w.env.lower s)) _ u found
      (All-order_rows (λ k. Mem k w.db.users) _ w.db.users (All-Mem w.db.users))

scan_one-missing :
    (o : Option User) (w : World) (e : Error) (v : World)
    → User.scan_one o w ≡ err e v
    → (o ≡ none) × (v ≡ w)
unfolding User.scan_one
scan_one-missing none w e v h = (refl, cc)
scan_one-missing (some u) w e v h = cc

-- A lookup by name that found nothing.
by_username-missing :
    (s : Text) (w : World) (e : Error) (v : World)
    → User.get_by_username s w ≡ err e v
    → is_not_found e ≡ true
    → (by_name w s ≡ none) × (v ≡ next w)
unfolding User.get_by_username User.select_user statement
by_username-missing s w e v h k = elim (Bool-cases (w.env.outage w.calls)) [
  | inl b ↦ cc (rw b at h)
  | inr b ↦ scan_one-missing _ (next w) e v (rw b at h)
]

by_email-found :
    (s : Text) (w : World) (e : Error) (v : World) (u : User) (w' : World)
    → (if is_not_found e
          then handle (User.get_by_email s) (λ _. raise invalid_credentials)
          else raise e)
        v
      ≡ ok u w'
    → (is_not_found e ≡ true) × HasAddress v s u
by_email-found s w e v u w' h = elim (Bool-cases (is_not_found e)) [
  | inl b ↦
      let g = rw b at h in
      (
        b,
        by_email-eq-ok s v u w'
            (handle-eq-ok (User.get_by_email s) (λ _. invalid_credentials) v u w' g),
      )
  | inr b ↦ cc (rw b at h)
]

after_username :
    (s : Text) (w : World) (u : User) (w' : World) (r : Outcome User)
    → User.get_by_username s w ≡ r
    → resume
        (λ e.
          if is_not_found e
          then handle (User.get_by_email s) (λ _. raise invalid_credentials)
          else raise e)
        r
      ≡ ok u w'
    → (by_name w s ≡ some u) ⊎ ((by_name w s ≡ none) × HasAddress w s u)
after_username s w u w' (ok a v) q h = inl (by_username-eq-ok s w u w' (q ∙ h))
after_username s w u w' (err e v) q h =
    let (b, found) = by_email-found s w e v u w' h in
    let (missing, same) = by_username-missing s w e v q b in
    inr (missing, subst (λ (z : World). HasAddress z s u) same found)

-- The user of a login has the name that was given, or no user has it and the address is that of the
-- user.
pub find_login-row :
    (s : Text) (w : World) (u : User) (w' : World)
    → AuthService.find_login s w ≡ ok u w'
    → (by_name w s ≡ some u) ⊎ ((by_name w s ≡ none) × HasAddress w s u)
unfolding AuthService.find_login
find_login-row s w u w' h = after_username s w u w' (User.get_by_username s w) refl h
