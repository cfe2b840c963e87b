-- ===== src/Web/Frames.antt =====
-- The statements that leave groups, threads, posts and attachments as they are.
use masonic_core.Prelude.{ℕ, ◌≡◌, Bool, Option, none, some, arith}
use masonic_core.Text.{Text}
use masonic_core.Models.{
  User, NewUser, Role, Session, NewSession, NewPrivateMessage, Payload, Notification,
  NewNotification,
}
use masonic_core.World.{Setting, Database, Stamp, rows, Sql}
use masonic_core.Store.Cascade.{has_group, has_thread, has_post}
use masonic_core.Store.User
use masonic_core.Store.Session
use masonic_core.Store.Settings
use masonic_core.Store.Message
use masonic_core.Store.Notification
use masonic_core.World.Rules.{KeepsSql}
use masonic_core.Integrity.{HasRefs}

pub record SameForum (d d' : Database) : Type 0 where
  pub groups : d'.groups ≡ d.groups
  pub threads : d'.threads ≡ d.threads
  pub posts : d'.posts ≡ d.posts
  pub attachments : d'.attachments ≡ d.attachments

pub record IsElsewhere {ℓ} {A : Type ℓ} (q : Sql A) : Type ℓ where
  pub at : (st : Stamp) (d : Database) (a : A) (d' : Database) → q st d ≡ rows a d' → SameForum d d'

SameForum-HasRefs : (d d' : Database) → SameForum d d' → HasRefs d → HasRefs d'
unfolding has_group has_thread has_post
SameForum-HasRefs d d' s r = record {
  groups = rw (s.groups) r.groups;
  threads = rw (s.threads, s.groups) r.threads;
  posts = rw (s.posts, s.threads) r.posts;
  attachments = rw (s.attachments, s.posts) r.attachments;
}

pub elsewhere-HasRefs {ℓ} : {A : Type ℓ} (q : Sql A) → IsElsewhere q → KeepsSql HasRefs q
elsewhere-HasRefs q e = record { at = λ st d a d' h r. SameForum-HasRefs d d' (e.at st d a d' h) r }

pub insert_user-IsElsewhere : (nu : NewUser) → IsElsewhere (User.insert_user nu)
unfolding User.insert_user
insert_user-IsElsewhere nu = record { at = λ st d a d' h. ground arith }

pub insert_roles-IsElsewhere : (id : ℕ) (p : Role → Bool) → IsElsewhere (User.insert_roles id p)
unfolding User.insert_roles
insert_roles-IsElsewhere id p = record { at = λ st d a d' h. ground arith }

pub update_user-IsElsewhere :
    (id : ℕ) (f : Stamp → User → User) → IsElsewhere (User.update_user id f)
unfolding User.update_user
update_user-IsElsewhere id f = record { at = λ st d a d' h. ground arith }

pub delete_roles-IsElsewhere : (id : ℕ) → IsElsewhere (User.delete_roles id)
unfolding User.delete_roles
delete_roles-IsElsewhere id = record { at = λ st d a d' h. ground arith }

insert_with-SameForum :
    (ns : NewSession) (o : Option (Option Text)) (st : Stamp) (d : Database) (a : Session)
    (d' : Database)
    → Session.insert_with ns o st d ≡ rows a d'
    → SameForum d d'
unfolding Session.insert_with
insert_with-SameForum ns none st d a d' h = cc
insert_with-SameForum ns (some ip) st d a d' h = ground arith

pub insert_session-IsElsewhere : (ns : NewSession) → IsElsewhere (Session.insert_session ns)
unfolding Session.insert_session
insert_session-IsElsewhere ns = record {
  at = λ st d a d' h. insert_with-SameForum ns _ st d a d' h;
}

pub update_open-IsElsewhere :
    (id : ℕ) (f : Session → Session) → IsElsewhere (Session.update_open id f)
unfolding Session.update_open
update_open-IsElsewhere id f = record { at = λ st d a d' h. ground arith }

set_with-SameForum :
    (key : Text) (o : Option Setting) (st : Stamp) (d : Database) (a : Unit {0}) (d' : Database)
    → Settings.set_with key o st d ≡ rows a d'
    → SameForum d d'
unfolding Settings.set_with
set_with-SameForum key none st d a d' h = cc
set_with-SameForum key (some v) st d a d' h = ground arith

pub set_value-IsElsewhere : (key : Text) (v : Setting) → IsElsewhere (Settings.set_value key v)
unfolding Settings.set_value
set_value-IsElsewhere key v = record { at = λ st d a d' h. set_with-SameForum key _ st d a d' h }

pub insert_message-IsElsewhere : (m : NewPrivateMessage) → IsElsewhere (Message.insert_message m)
unfolding Message.insert_message
insert_message-IsElsewhere m = record { at = λ st d a d' h. ground arith }

pub update_message-IsElsewhere : (id user_id : ℕ) → IsElsewhere (Message.update_read id user_id)
unfolding Message.update_read
update_message-IsElsewhere id user_id = record { at = λ st d a d' h. ground arith }

notification_with :
    (n : NewNotification) (o : Option Payload) (st : Stamp) (d : Database) (a : Notification)
    (d' : Database)
    → Notification.insert_with n o st d ≡ rows a d'
    → SameForum d d'
unfolding Notification.insert_with
notification_with n none st d a d' h = cc
notification_with n (some payload) st d a d' h = ground arith

pub insert_notification-IsElsewhere :
    (n : NewNotification) → IsElsewhere (Notification.insert_notification n)
unfolding Notification.insert_notification
insert_notification-IsElsewhere n = record { at = λ st d a d' h. notification_with n _ st d a d' h }

pub update_notification-IsElsewhere :
    (p : Notification → Bool) → IsElsewhere (Notification.update_read p)
unfolding Notification.update_read
update_notification-IsElsewhere p = record { at = λ st d a d' h. ground arith }

pub ruleset elsewhere_rules = (
  elsewhere-HasRefs, insert_user-IsElsewhere, insert_roles-IsElsewhere, update_user-IsElsewhere,
  delete_roles-IsElsewhere, insert_session-IsElsewhere, update_open-IsElsewhere,
  set_value-IsElsewhere, insert_message-IsElsewhere, update_message-IsElsewhere,
  insert_notification-IsElsewhere, update_notification-IsElsewhere,
)
