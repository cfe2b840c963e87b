-- ===== src/Http.antt =====
-- internal/handlers and internal/http: a request is answered with a response, over the world that the
-- services run in and the hub of the live connections.
pub mod Input
pub mod Answers
pub mod Gate
pub mod Accounts
pub mod Groups
pub mod Threads
pub mod Posts
pub mod Media
pub mod Messages
pub mod Admin
pub mod Install
pub mod Probes
pub mod Live
pub mod Routes
use masonic_core.Prelude.{
  ℕ, zero, suc, ◌+◌, ◌-◌, ◌*◌, ◌/◌, ◌%◌, ◌^◌, ◌≤◌, ◌<◌, ◌≡◌, refl, sym, ap, ◌∙◌, subst, ◌≢◌, ◌↔◌,
  ◌⊎◌, inl, inr, Bool, true, false, ◌&&◌, ◌||◌, not, Option, none, some, List, [], ◌∷◌, ◌++◌, map,
  reverse, arith, ltb, leb, ◌==◌, if◌then◌else◌, ==_iff, ==_refl, Bool-cases, Option-cases, length,
  take, drop, find_row, any_row, all_rows, keep_rows, count_rows, update_rows, insert_row,
  order_rows, page, join_rows, bind_option, is_none, has_value, All, All-map, All-update, All-imp,
  All-keep, All-find, any-update, any-map, any-keep_not, count_update, length-append, ℤ, pos,
  negsuc, ltb_int,
}
use masonic_core.Text.{Text, text, text_eq, text_eq_iff, to_lower, has_prefix, has_byte, is_listed}
use masonic_core.Models.{
  status_active, status_banned, status_pending, role_admin, role_moderator, role_member, User,
  UserWithRoles, NewUser, Role, UserRole, Session, NewSession, Group, NewGroup, Thread,
  ThreadSummary, NewThread, Post, PostSummary, NewPost, PrivateMessage, NewPrivateMessage,
  PmConversation, Payload, empty_object, pm_payload, Notification, NewNotification, Attachment,
  NewAttachment, AttachmentWithOwner,
}
use masonic_core.World.{
  Setting, flag_value, text_value, Database, Claims, Env, World, Fault, unavailable,
  unique_violation, foreign_key_violation, out_of_range, bad_inet, bad_token, bad_json, bad_version,
  bad_parameters, bad_salt, bad_key, missing_role_keys, Error, row_not_found, row_conflict,
  invalid_credentials, invalid_refresh, user_not_active, user_not_found, username_taken,
  email_taken, already_installed, validation, not_found, group_not_found, thread_not_found,
  post_not_found, attachment_not_found, forbidden, invalid_input, conflict, thread_locked,
  not_empty, file_too_large, unsupported_type, failure, Outcome, ok, err, M, final, pure, raise,
  resume, handle, settled, ignore, continue, ◌>>=◌, ◌>>◌, refuse_if, is_not_found, is_conflict,
  missing_as, conflict_as, next, Stamp, stamp, Reply, rows, fault, Sql, settle, statement, commit,
  transaction, time_now, read_random, new_uuid,
}
use masonic_core.Config.{Config}
use masonic_core.Auth.Tokens.{UserInfo}
use masonic_core.Services.Install.{InstallStatus}
use masonic_core.Ws.Steps.{System}

-- The file of a multipart form.
pub record Upload : Type 0 where
  pub filename : Text
  pub content_type : Text
  pub size : ℕ

-- What the handlers read of an *http.Request. `params` are the parameters of the route, and `user` is
-- the value that RequireAuth puts into the context.
pub record Request : Type 0 where
  pub params : List (Text × Text)
  pub query : List (Text × Text)
  pub form : List (Text × Text)
  pub cookies : List (Text × Text)
  pub authorization : Text
  pub user_agent : Text
  pub remote_addr : Text
  pub payload : Text
  pub file : Option Upload
  pub user : Option UserInfo

pub record Cookie : Type 0 where
  pub name : Text
  pub value : Text
  pub path : Text
  pub max_age : ℤ
  pub http_only : Bool
  pub secure : Bool
  pub same_site_lax : Bool

-- The values that the handlers encode as JSON, one constructor for each shape.
pub data Body : Type 0 where
  no_body : Body
  error_body : (code message : Text) → Body
  user_body account_body : User → Body
  profile_body : User → List Text → Body
  login_body : Text → User → List Text → Body
  token_body : Text → Body
  groups_body : List Group → Body
  group_body : Group → Body
  thread_body : ThreadSummary → Body
  threads_body : (items : List ThreadSummary) → (total limit offset : ℕ) → Body
  post_body : PostSummary → Body
  posts_body : (items : List PostSummary) → (total limit offset : ℕ) → Body
  attachment_body : Attachment → Body
  message_body : PrivateMessage → Body
  messages_body : (items : List PmConversation) → (total limit offset : ℕ) → Body
  notifications_body : (items : List Notification) → (total limit offset : ℕ) → Body
  counts_body : (messages notifications : ℕ) → Body
  online_body : List ℕ → Body
  presence_body : ℕ → Bool → Body
  users_body : (items : List UserWithRoles) → (total limit offset : ℕ) → Body
  member_body : UserWithRoles → Body
  media_body : (items : List AttachmentWithOwner) → (total limit offset : ℕ) → Body
  settings_body : (forum_name : Text) → Body
  status_body : InstallStatus → Body
  installed_body : (forum_name : Text) → User → Body
  health_body : (status : Text) → Body
  version_body : (backend : Text) → (schema : ℕ) → Body
  object_body : (key : Text) → Body

pub record Response : Type 0 where
  pub status : ℕ
  pub cookie : Option Cookie
  pub body : Body

-- The request structs that decodeJSON fills.
pub record RegisterRequest : Type 0 where
  pub username : Text
  pub email : Text
  pub password : Text

pub record LoginRequest : Type 0 where
  pub identifier : Text
  pub password : Text

pub record CreateThreadRequest : Type 0 where
  pub title : Text
  pub body : Text

pub record UpdateThreadRequest : Type 0 where
  pub title : Option Text
  pub pinned : Option Bool
  pub locked : Option Bool

pub record SendMessageRequest : Type 0 where
  pub recipient_id : ℕ
  pub body : Text

pub record UpdateUserRequest : Type 0 where
  pub roles : Option (List Text)
  pub status : Option Text

pub record InstallRequest : Type 0 where
  pub forum_name : Text
  pub admin_username : Text
  pub admin_email : Text
  pub admin_password : Text

-- encoding/json on the body of a request, for each of the structs; `none` is its error.
pub record Decoders : Type 0 where
  pub register_request : Text → Option RegisterRequest
  pub login_request : Text → Option LoginRequest
  pub group_request : Text → Option NewGroup
  pub create_thread_request : Text → Option CreateThreadRequest
  pub update_thread_request : Text → Option UpdateThreadRequest
  pub post_request : Text → Option Text
  pub send_message_request : Text → Option SendMessageRequest
  pub update_user_request : Text → Option UpdateUserRequest
  pub update_settings_request : Text → Option Text
  pub install_request : Text → Option InstallRequest

-- What NewRouter wires into the handlers: `has_hub` is `h.hub != nil`, `schema` the version of the
-- schema that goose has applied, and `upgrade` gorilla's Upgrader, with the answer of a refusal.
pub record Server : Type 0 where
  pub config : Config
  pub decoders : Decoders
  pub has_hub : Bool
  pub backend : Text
  pub schema : ℕ
  pub upgrade : Request → Option Response

pub record Site : Type 0 where
  pub world : World
  pub system : System

abbrev pub Action : Type 0
Action = Site → Response × Site

abbrev pub Handler : Type 0
Handler = Request → Action
