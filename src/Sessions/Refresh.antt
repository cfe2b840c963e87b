-- ===== src/Sessions/Refresh.antt =====
-- A refresh token serves once.
use masonic_core.Prelude.{
  ℕ, ◌≡◌, sym, ap, ◌∙◌, subst, ◌≢◌, inl, inr, true, false, Option, none, some, List, ◌∷◌, ◌==◌,
  if◌then◌else◌, Bool-cases, find_row, any_row,
}
use masonic_core.Text.{Text, text_eq}
use masonic_core.Models.{status_active, User, Session}
use masonic_core.World.{
  Database, Env, World, Error, row_not_found, invalid_refresh, user_not_active, Outcome, ok, err, M,
  raise, resume, settled, ignore, ◌>>=◌, ◌>>◌, is_not_found, next, stamp, time_now, read_random,
}
use masonic_core.Config.{Config}
use masonic_core.Auth.Tokens.{new_access_token, new_refresh_token, hash_refresh_token}
use masonic_core.Store.User
use masonic_core.Store.Session
use masonic_core.Store.Session.{live_session, insert_session, update_open}
use masonic_core.Services.Auth as AuthService
use masonic_core.Services.Auth.{Tokens}
use masonic_core.Sessions.Keys.{
  IsKeyed, revoked, revoked-IsKeyed, revoked-hash, live-revoked, live-hash, live-cons,
  insert_session-eq-rows,
}
use masonic_core.World.Rules.{
  ok-inj, continue-eq-ok, resume-eq-ok, refuse_if-eq-ok, statement-eq-ok, read-eq-ok,
}
use masonic_core.Access.Reads.{found-eq-ok, not-false}

scan_session-eq-ok :
    (t : Session) (w' : World) (o : Option Session) (v : World)
    → Session.scan_session o v ≡ ok t w'
    → (o ≡ some t) × (w' ≡ v)
unfolding Session.scan_session
scan_session-eq-ok t w' none v h = cc
scan_session-eq-ok t w' (some s) v h = (cc, cc)

pub scan_one-eq-ok :
    (t : User) (w' : World) (o : Option User) (v : World)
    → User.scan_one o v ≡ ok t w'
    → (o ≡ some t) × (w' ≡ v)
unfolding User.scan_one
scan_one-eq-ok t w' none v h = cc
scan_one-eq-ok t w' (some s) v h = (cc, cc)

session-eq-ok :
    (hash : Text) (g : Error → Error) (w : World) (s : Session) (w' : World)
    → resume (λ e. raise (g e)) (Session.get_by_token_hash hash w) ≡ ok s w'
    → (live_session hash (w.env.clock w.calls) w.db.sessions ≡ some s) × (w' ≡ next w)
unfolding Session.get_by_token_hash Session.select_session
session-eq-ok hash g w s w' h =
    found-eq-ok (λ st d. live_session hash st.now d.sessions) Session.scan_session w s w'
      (scan_session-eq-ok s w') (resume-eq-ok _ g s w' h)

pub user-eq-ok :
    (id : ℕ) (w : World) (u : User) (w' : World)
    → User.get_by_id id w ≡ ok u w'
    → (find_row (λ r. r.id == id) w.db.users ≡ some u) × (w' ≡ next w)
unfolding User.get_by_id User.select_user
user-eq-ok id w u w' h = found-eq-ok _ User.scan_one w u w' (scan_one-eq-ok u w') h

revoke-eq-ok :
    (id at : ℕ) (w : World) (x : Unit {0}) (w' : World)
    → Session.revoke id at w ≡ ok x w'
    → (w'.env ≡ w.env) × (w'.db ≡ record w.db { sessions = revoked id at w.db.sessions })
unfolding Session.revoke Session.update_open
revoke-eq-ok id at w x w' h =
    let (n, v, e, g) = continue-eq-ok _ _ x w' h in
    let (d, q, same) =
      statement-eq-ok (update_open id (λ s. record s { revoked_at = some at })) w n v e in
    let (_, last) = refuse_if-eq-ok (n == 0) row_not_found v x w' g in
    let moved : record w.db { sessions = revoked id at w.db.sessions } ≡ d = cc in
    (ap (λ (u : World). u.env) (last ∙ same), ap (λ (u : World). u.db) (last ∙ same) ∙ sym moved)

pub random-eq-ok :
    (n : ℕ) (w : World) (bytes : List ℕ) (w' : World) → read_random n w ≡ ok bytes w' → w' ≡ next w
unfolding read_random
random-eq-ok n w bytes w' h = elim (Bool-cases (w.env.outage w.calls)) [
  | inl e ↦ cc (rw e at h)
  | inr e ↦ sym (ok-inj _ bytes (next w) w' (rw e at h)).1
]

-- New tokens open one session, with a hash that no other session has.
pub issue-eq-ok :
    (cfg : Config) (user : User) (user_agent ip : Text) (w : World) (x : Tokens) (w' : World)
    → AuthService.issue_tokens cfg user user_agent ip w ≡ ok x w'
    → (s : Session) × (w'.env ≡ w.env)
      × (w'.db ≡ record w.db { sessions = s ∷ w.db.sessions })
      × (any_row (λ r. text_eq r.token_hash s.token_hash) w.db.sessions ≡ false)
      × (x.user ≡ user)
      × (s.user_id ≡ user.id)
      × (s.token_hash ≡ w.env.digest x.refresh_token)
unfolding AuthService.issue_tokens User.roles_for_user User.select_roles new_access_token
    new_refresh_token time_now Session.create
issue-eq-ok cfg user user_agent ip w x w' h =
    let (roles, v, e, g) = continue-eq-ok _ _ x w' h in
    let (_, read) = read-eq-ok (λ st d. User.role_keys st d user.id) w roles v e in
    let (pair, v3, e3, g3) = continue-eq-ok _ _ x w' g in
    let (bytes, v2, e2, g2) = continue-eq-ok _ _ pair v3 e3 in
    let drawn = random-eq-ok _ (next v) bytes v2 e2 in
    let (drew, made) = ok-inj _ pair v2 v3 g2 in
    let (s, v4, e4, g4) = continue-eq-ok _ _ x w' g3 in
    let (d, q, same) = statement-eq-ok (insert_session _) (next v3) s v4 e4 in
    let (grown, fresh, owner, key) = insert_session-eq-rows _ (stamp (next v3)) v3.db s d q in
    let (is, last) = ok-inj _ x v4 w' g4 in
    let here : v3.db ≡ w.db =
      ap (λ (u : World). u.db) (sym made ∙ drawn) ∙ ap (λ (u : World). u.db) read in
    let env : v3.env ≡ w.env =
      ap (λ (u : World). u.env) (sym made ∙ drawn) ∙ ap (λ (u : World). u.env) read in
    (
      s,
      ap (λ (u : World). u.env) (sym last ∙ same) ∙ env,
      ap (λ (u : World). u.db) (sym last ∙ same)
          ∙ grown
          ∙ ap (λ (b : Database). record b { sessions = s ∷ b.sessions }) here,
      ap (λ (b : Database). any_row (λ r. text_eq r.token_hash s.token_hash) b.sessions) (sym here)
          ∙ fresh,
      ap (λ (t : Tokens). t.user) (sym is),
      owner,
      key
          ∙ ap (λ (p : Text × Text). p.1) (sym drew)
          ∙ ap (λ (p : Text × Text). v2.env.digest p.0) drew
          ∙ ap (λ (t : Tokens). v2.env.digest t.refresh_token) is
          ∙ ap (λ (o : Env). o.digest x.refresh_token)
              (ap (λ (u : World). u.env) drawn ∙ ap (λ (u : World). u.env) read),
    )

resume-never :
    (r : Outcome User) (f : Error → M User) (a : User) (w' : World)
    → ((e : Error) (v : World) → f e v ≡ ok a w' → r ≡ ok a w')
    → resume f r ≡ ok a w'
    → r ≡ ok a w'
resume-never (ok b v) f a w' k h = h
resume-never (err e v) f a w' k h = k e v h

not_ok {ℓ} : {B : Type ℓ} (e : Error) (v : World) (a : User) (w' : World) → err e v ≡ ok a w' → B
not_ok e v a w' h = cc

end_session :
    (r : Outcome User) (a : User) (w' : World) (id : ℕ) (e : Error) (v : World)
    → (if is_not_found e
          then (do now ← time_now; ignore (Session.revoke id now); raise {A = User} invalid_refresh)
          else raise e)
        v
      ≡ ok a w'
    → r ≡ ok a w'
unfolding time_now
end_session r a w' id e v h = elim (Bool-cases (is_not_found e)) [
  | inl b ↦
      let (_, v2, _, g) =
        continue-eq-ok (settled (Session.revoke id (v.env.clock v.calls) (next v)))
          (λ _. raise {A = User} invalid_refresh) a w' (rw b at h) in
      not_ok invalid_refresh v2 a w' g
  | inr b ↦ not_ok e v a w' (rw b at h)
]

session_user-eq-ok :
    (s : Session) (w : World) (u : User) (w' : World)
    → AuthService.session_user s w ≡ ok u w'
    → (find_row (λ r. r.id == s.user_id) w.db.users ≡ some u) × (w' ≡ next w)
unfolding AuthService.session_user
session_user-eq-ok s w u w' h =
    user-eq-ok s.user_id w u w' (resume-never _ _ u w' (λ e v. end_session _ u w' s.id e v) h)

-- What a refresh does that succeeds.
pub refresh-eq-ok :
    (cfg : Config) (token user_agent ip : Text) (w : World) (x : Tokens) (w' : World)
    → AuthService.refresh cfg token user_agent ip w ≡ ok x w'
    → (s : Session) × (n : Session) × (at : ℕ) × (live_session
          (w.env.digest token)
          (w.env.clock w.calls)
          w.db.sessions
        ≡ some s)
      × (find_row (λ r. r.id == s.user_id) w.db.users ≡ some x.user)
      × (text_eq x.user.status status_active ≡ true)
      × (w'.env ≡ w.env)
      × (w'.db ≡ record w.db { sessions = n ∷ revoked s.id at w.db.sessions })
      × (any_row (λ r. text_eq r.token_hash n.token_hash) (revoked s.id at w.db.sessions) ≡ false)
unfolding AuthService.refresh hash_refresh_token time_now
refresh-eq-ok cfg token user_agent ip w x w' h =
    let (s, v, e, g) = continue-eq-ok _ _ x w' h in
    let (live, read) = session-eq-ok _ _ w s v e in
    let (user, v2, e2, g2) = continue-eq-ok _ _ x w' g in
    let (is, read2) = session_user-eq-ok s v user v2 e2 in
    let (_, v3, e3, g3) = continue-eq-ok _ _ x w' g2 in
    let (active, same3) = refuse_if-eq-ok _ user_not_active v2 _ v3 e3 in
    let (u, v4, e4, g4) = continue-eq-ok _ _ x w' g3 in
    let at = v3.env.clock v3.calls in
    let (env, ended) = revoke-eq-ok s.id at (next v3) u v4 e4 in
    let (n, env2, opened, fresh, who, _, _) = issue-eq-ok cfg user user_agent ip v4 x w' g4 in
    let here : v3.db ≡ w.db =
      ap (λ (u : World). u.db) (same3 ∙ read2) ∙ ap (λ (u : World). u.db) read in
    let back : v3.env ≡ w.env =
      ap (λ (u : World). u.env) (same3 ∙ read2) ∙ ap (λ (u : World). u.env) read in
    let left : v4.db ≡ record w.db { sessions = revoked s.id at w.db.sessions } =
      ended ∙ ap (λ (b : Database). record b { sessions = revoked s.id at b.sessions }) here in
    (
      s,
      n,
      at,
      live,
      ap (λ (b : World). find_row (λ (r : User). r.id == s.user_id) b.db.users) (sym read)
          ∙ is
          ∙ ap some (sym who),
      ap (λ (b : User). text_eq b.status status_active) who ∙ not-false _ active,
      env2 ∙ env ∙ back,
      opened ∙ ap (λ (b : Database). record b { sessions = n ∷ b.sessions }) left,
      ap (λ (b : Database). any_row (λ r. text_eq r.token_hash n.token_hash) b.sessions) (sym left)
          ∙ fresh,
    )

-- A refresh that succeeds spends its token: it has a live session before, whose user exists and is
-- active, and if no two sessions have one token hash, then afterwards the token has no live session
-- at any time, and no two sessions have one token hash either.
pub refresh-spent :
    (cfg : Config) (token user_agent ip : Text) (w : World) (x : Tokens) (w' : World)
    → AuthService.refresh cfg token user_agent ip w ≡ ok x w'
    → IsKeyed w.db.sessions
    → (text_eq x.user.status status_active ≡ true)
      × ((s : Session) × (live_session (w.env.digest token) (w.env.clock w.calls) w.db.sessions
            ≡ some s)
          × (find_row (λ r. r.id == s.user_id) w.db.users ≡ some x.user))
      × ((later : ℕ) → live_session (w.env.digest token) later w'.db.sessions ≡ none)
      × IsKeyed w'.db.sessions
refresh-spent cfg token user_agent ip w x w' h k =
    let (s, n, at, live, is, active, _, left, fresh) =
      refresh-eq-ok cfg token user_agent ip w x w' h in
    let hash = w.env.digest token in
    let known =
      revoked-hash hash s.id at w.db.sessions
      ∙ live-hash hash (w.env.clock w.calls) w.db.sessions s live in
    (
      active,
      (s, live, is),
      λ later.
          ap (λ (b : Database). live_session hash later b.sessions) left
          ∙ live-cons hash later n (revoked s.id at w.db.sessions) fresh known
          ∙ live-revoked hash (w.env.clock w.calls) later at w.db.sessions s k live,
      subst (λ (b : Database). IsKeyed b.sessions) (sym left)
          (fresh, revoked-IsKeyed s.id at w.db.sessions k),
    )

-- If no two sessions have one token hash, a refresh token that served once does not serve again
-- right after, for whatever client and configuration.
pub refresh-replay :
    (cfg cfg2 : Config) (token user_agent ip user_agent2 ip2 : Text) (w : World) (x y : Tokens)
    (w' w2 : World)
    → IsKeyed w.db.sessions
    → AuthService.refresh cfg token user_agent ip w ≡ ok x w'
    → AuthService.refresh cfg2 token user_agent2 ip2 w' ≢ ok y w2
refresh-replay cfg cfg2 token user_agent ip user_agent2 ip2 w x y w' w2 k h again =
    let (_, _, _, _, _, _, env, _, _) = refresh-eq-ok cfg token user_agent ip w x w' h in
    let (_, _, spent, _) = refresh-spent cfg token user_agent ip w x w' h k in
    let (s, _, _, live, _, _, _, _, _) = refresh-eq-ok cfg2 token user_agent2 ip2 w' y w2 again in
    cc (
      ap (λ (e : Env). live_session (e.digest token) (w'.env.clock w'.calls) w'.db.sessions) env,
      spent (w'.env.clock w'.calls),
      live,
    )
