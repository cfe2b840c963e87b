-- ===== src/Web/Entries.antt =====
-- The calls on accounts and sessions keep the references of the forum.
use masonic_core.Prelude.{
  ℕ, inl, inr, Bool, true, false, Option, none, some, List, arith, if◌then◌else◌, Bool-cases,
}
use masonic_core.Text.{Text}
use masonic_core.Models.{User, NewUser, Session, NewSession}
use masonic_core.World.{Database, M, read_random}
use masonic_core.World.Rules.{
  Keeps, keeps_rules, KeepsSql-read, Keeps-value, Keeps-time_now, Keeps-new_uuid,
}
use masonic_core.Integrity.{HasRefs}
use masonic_core.Web.Frames.{elsewhere_rules}
use masonic_core.Web.Reads.{scan_one-Keeps, get_user-Keeps, roles-Keeps}
use masonic_core.Config.{Config}
use masonic_core.Storage.{avatar_key}
use masonic_core.Auth.Password
use masonic_core.Auth.Password.{Params, Check, matches, differs, broken}
use masonic_core.Auth.Tokens
use masonic_core.Store.User
use masonic_core.Store.Session
use masonic_core.Services.Auth as AuthService

module _ {P : Database → Type 0} where
  read_random-Keeps : (n : ℕ) → Keeps P (read_random n)
  unfolding read_random
  read_random-Keeps n = record { at = λ w h. ground arith }

  pub hash-Keeps : (p : Params) (password : Text) → Keeps P (Password.hash p password)
  unfolding Password.hash
  hash-Keeps p password = search (keeps_rules, read_random-Keeps, Keeps-value)

  answer-Keeps : (c : Check) → Keeps P (Password.answer c)
  answer-Keeps matches = search keeps_rules
  answer-Keeps differs = search keeps_rules
  answer-Keeps (broken f) = search keeps_rules

  verify-Keeps : (password stored : Text) → Keeps P (Password.verify password stored)
  unfolding Password.verify
  verify-Keeps password stored = record {
    at = λ w h. (answer-Keeps (Password.check w.env password stored)).at w h;
  }

  by_username-Keeps : (name : Text) → Keeps P (User.get_by_username name)
  unfolding User.get_by_username User.select_user
  by_username-Keeps name = search (keeps_rules, KeepsSql-read, scan_one-Keeps)

  by_email-Keeps : (email : Text) → Keeps P (User.get_by_email email)
  unfolding User.get_by_email User.select_by_email
  by_email-Keeps email = search (keeps_rules, KeepsSql-read, scan_one-Keeps)

  if-Keeps {ℓ} :
      {A : Type ℓ} (b : Bool) (m n : M A) → Keeps P m → Keeps P n → Keeps P (if b then m else n)
  if-Keeps true m n km kn = km
  if-Keeps false m n km kn = kn

  find_login-Keeps : (identifier : Text) → Keeps P (AuthService.find_login identifier)
  unfolding AuthService.find_login
  find_login-Keeps identifier =
      search (keeps_rules, by_username-Keeps, by_email-Keeps, if-Keeps) depth 12

  new_access-Keeps :
      (cfg : Config) (id : ℕ) (username : Text) (rs : List Text)
      → Keeps P (Tokens.new_access_token cfg id username rs)
  unfolding Tokens.new_access_token
  new_access-Keeps cfg id username rs = search (keeps_rules, Keeps-time_now, Keeps-value)

  new_refresh-Keeps : Keeps P Tokens.new_refresh_token
  unfolding Tokens.new_refresh_token
  new_refresh-Keeps = record {
    at = λ w h. elim (Bool-cases (w.env.outage w.calls)) [ inl e ↦ rw e h | inr e ↦ rw e h ];
  }

  hash_refresh-Keeps : (token : Text) → Keeps P (Tokens.hash_refresh_token token)
  unfolding Tokens.hash_refresh_token
  hash_refresh-Keeps token = record { at = λ w h. h }

  scan_session-Keeps : (o : Option Session) → Keeps P (Session.scan_session o)
  unfolding Session.scan_session
  scan_session-Keeps none = search keeps_rules
  scan_session-Keeps (some s) = search keeps_rules

  get_session-Keeps : (hash : Text) → Keeps P (Session.get_by_token_hash hash)
  unfolding Session.get_by_token_hash Session.select_session
  get_session-Keeps hash = search (keeps_rules, KeepsSql-read, scan_session-Keeps)

  pub avatar_key-Keeps : (user_id : ℕ) (filename : Text) → Keeps P (avatar_key user_id filename)
  unfolding avatar_key
  avatar_key-Keeps user_id filename = search (keeps_rules, Keeps-new_uuid, Keeps-value)

pub create_user-Keeps : (nu : NewUser) → Keeps HasRefs (User.create nu)
unfolding User.create
create_user-Keeps nu = search (keeps_rules, elsewhere_rules) depth 12

pub assign-Keeps : (id : ℕ) (key : Text) → Keeps HasRefs (User.assign_role id key)
unfolding User.assign_role
assign-Keeps id key = search (keeps_rules, elsewhere_rules) depth 12

pub add_member-Keeps : (id : ℕ) → Keeps HasRefs (User.add_member_role id)
unfolding User.add_member_role
add_member-Keeps id = search (keeps_rules, assign-Keeps)

validate-Keeps :
    (username email password : Text) → Keeps HasRefs (AuthService.validate username email password)
unfolding AuthService.validate
validate-Keeps username email password = search keeps_rules

pub register-Keeps :
    (username email password : Text) → Keeps HasRefs (AuthService.register username email password)
unfolding AuthService.register AuthService.register_trimmed
register-Keeps username email password =
    search (keeps_rules, validate-Keeps, hash-Keeps, create_user-Keeps, add_member-Keeps) depth 16

create_session-Keeps : (ns : NewSession) → Keeps HasRefs (Session.create ns)
unfolding Session.create
create_session-Keeps ns = search (keeps_rules, elsewhere_rules)

revoke-Keeps : (id at : ℕ) → Keeps HasRefs (Session.revoke id at)
unfolding Session.revoke
revoke-Keeps id at = search (keeps_rules, elsewhere_rules)

issue-Keeps :
    (cfg : Config) (u : User) (user_agent ip : Text)
    → Keeps HasRefs (AuthService.issue_tokens cfg u user_agent ip)
unfolding AuthService.issue_tokens
issue-Keeps cfg u user_agent ip =
    search
      (
        keeps_rules, roles-Keeps, new_access-Keeps, new_refresh-Keeps, Keeps-time_now,
        create_session-Keeps,
      )
      depth 16

pub login-Keeps :
    (cfg : Config) (identifier password user_agent ip : Text)
    → Keeps HasRefs (AuthService.login cfg identifier password user_agent ip)
unfolding AuthService.login AuthService.login_trimmed
login-Keeps cfg identifier password user_agent ip =
    search (keeps_rules, find_login-Keeps, verify-Keeps, issue-Keeps) depth 16

session_user-Keeps : (s : Session) → Keeps HasRefs (AuthService.session_user s)
unfolding AuthService.session_user
session_user-Keeps s =
    search (keeps_rules, get_user-Keeps, Keeps-time_now, revoke-Keeps, if-Keeps) depth 16

pub refresh-Keeps :
    (cfg : Config) (token user_agent ip : Text)
    → Keeps HasRefs (AuthService.refresh cfg token user_agent ip)
unfolding AuthService.refresh
refresh-Keeps cfg token user_agent ip =
    search
      (
        keeps_rules, hash_refresh-Keeps, get_session-Keeps, session_user-Keeps, Keeps-time_now,
        revoke-Keeps, issue-Keeps,
      )
      depth 20

pub logout-Keeps : (token : Text) → Keeps HasRefs (AuthService.logout token)
unfolding AuthService.logout
logout-Keeps token =
    search (keeps_rules, hash_refresh-Keeps, get_session-Keeps, Keeps-time_now, revoke-Keeps) depth
      16
