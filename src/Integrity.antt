-- ===== src/Integrity.antt =====
-- The references between groups, threads, posts and attachments, as an invariant of the tables.
pub mod Groups
pub mod Threads
pub mod Posts
pub mod Counts
pub mod Calls
pub mod Creation
use masonic_core.Prelude.{
  ℕ, zero, suc, ◌+◌, ◌-◌, ◌*◌, ◌/◌, ◌%◌, ◌^◌, ◌≤◌, ◌<◌, ◌≡◌, refl, sym, ap, ◌∙◌, subst, ◌≢◌, ◌↔◌,
  ◌⊎◌, inl, inr, Bool, true, false, ◌&&◌, ◌||◌, not, Option, none, some, List, [], ◌∷◌, ◌++◌, map,
  reverse, arith, ltb, leb, ◌==◌, if◌then◌else◌, ==_iff, ==_refl, Bool-cases, Option-cases, length,
  take, drop, find_row, any_row, all_rows, keep_rows, count_rows, update_rows, insert_row,
  order_rows, page, join_rows, bind_option, is_none, has_value, All, All-map, All-update, All-imp,
  All-keep, All-find, any-update, any-map, any-keep_not, count_update, length-append, ℤ, pos,
  negsuc, ltb_int,
}
use masonic_core.Text.{Text, text, text_eq, text_eq_iff, to_lower, has_prefix, has_byte, is_listed}
use masonic_core.Models.{
  status_active, status_banned, status_pending, role_admin, role_moderator, role_member, User,
  UserWithRoles, NewUser, Role, UserRole, Session, NewSession, Group, NewGroup, Thread,
  ThreadSummary, NewThread, Post, PostSummary, NewPost, PrivateMessage, NewPrivateMessage,
  PmConversation, Payload, empty_object, pm_payload, Notification, NewNotification, Attachment,
  NewAttachment, AttachmentWithOwner,
}
use masonic_core.World.{
  Setting, flag_value, text_value, Database, Claims, Env, World, Fault, unavailable,
  unique_violation, foreign_key_violation, out_of_range, bad_inet, bad_token, bad_json, bad_version,
  bad_parameters, bad_salt, bad_key, missing_role_keys, Error, row_not_found, row_conflict,
  invalid_credentials, invalid_refresh, user_not_active, user_not_found, username_taken,
  email_taken, already_installed, validation, not_found, group_not_found, thread_not_found,
  post_not_found, attachment_not_found, forbidden, invalid_input, conflict, thread_locked,
  not_empty, file_too_large, unsupported_type, failure, Outcome, ok, err, M, final, pure, raise,
  resume, handle, settled, ignore, continue, ◌>>=◌, ◌>>◌, refuse_if, is_not_found, is_conflict,
  missing_as, conflict_as, next, Stamp, stamp, Reply, rows, fault, Sql, settle, statement, commit,
  transaction, time_now, read_random, new_uuid,
}
use masonic_core.Store.Cascade.{has_user, has_group, has_thread, has_post, null_or}

-- Every thread is in a group that exists, every post in a thread that exists, and what an attachment
-- or a group refers to exists.
pub record HasRefs (d : Database) : Type 0 where
  pub groups : All (λ g. null_or (λ id. has_group id d) g.parent_id ≡ true) d.groups
  pub threads : All (λ t. has_group t.group_id d ≡ true) d.threads
  pub posts : All (λ p. has_thread p.thread_id d ≡ true) d.posts
  pub attachments : All (λ a. null_or (λ id. has_post id d) a.post_id ≡ true) d.attachments
