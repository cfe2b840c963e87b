-- ===== src/Models.antt =====
-- internal/models: the rows of the tables, the values that a statement inserts, and the joined rows
-- that the API returns. Identifiers (UUIDs) and times are numbers; the nil UUID is 0.
use masonic_core.Prelude.{ℕ, ℤ, Bool, List, Option}
use masonic_core.Text.{Text, text}

-- User statuses and role keys.
abbrev pub status_active : Text
status_active = text "active"

abbrev pub status_banned : Text
status_banned = text "banned"

abbrev pub status_pending : Text
status_pending = text "pending"

abbrev pub role_admin : Text
role_admin = text "admin"

abbrev pub role_moderator : Text
role_moderator = text "moderator"

abbrev pub role_member : Text
role_member = text "member"

pub record User : Type 0 where
  pub id : ℕ
  pub username : Text
  pub email : Text
  pub password_hash : Text
  pub display_name : Text
  pub avatar_url : Text
  pub status : Text
  pub created_at : ℕ
  pub updated_at : ℕ
  pub last_seen_at : Option ℕ

pub record UserWithRoles : Type 0 where
  pub user : User
  pub roles : List Text

pub record NewUser : Type 0 where
  pub username : Text
  pub email : Text
  pub password_hash : Text
  pub display_name : Text

pub record Role : Type 0 where
  pub id : ℕ
  pub key : Text
  pub name : Text
  pub description : Text

-- A row of `user_roles`.
pub record UserRole : Type 0 where
  pub user_id : ℕ
  pub role_id : ℕ

pub record Session : Type 0 where
  pub id : ℕ
  pub user_id : ℕ
  pub token_hash : Text
  pub user_agent : Text
  pub ip : Option Text
  pub created_at : ℕ
  pub expires_at : ℕ
  pub revoked_at : Option ℕ

pub record NewSession : Type 0 where
  pub user_id : ℕ
  pub token_hash : Text
  pub user_agent : Text
  pub ip : Text
  pub expires_at : ℕ

pub record Group : Type 0 where
  pub id : ℕ
  pub name : Text
  pub slug : Text
  pub description : Text
  pub parent_id : Option ℕ
  pub sort_order : ℤ
  pub created_at : ℕ
  pub updated_at : ℕ

pub record NewGroup : Type 0 where
  pub name : Text
  pub slug : Text
  pub description : Text
  pub parent_id : Option ℕ
  pub sort_order : ℤ

pub record Thread : Type 0 where
  pub id : ℕ
  pub group_id : ℕ
  pub author_id : ℕ
  pub title : Text
  pub pinned : Bool
  pub locked : Bool
  pub views : ℕ
  pub post_count : ℕ
  pub last_post_at : Option ℕ
  pub created_at : ℕ
  pub updated_at : ℕ

pub record ThreadSummary : Type 0 where
  pub thread : Thread
  pub author_username : Text
  pub author_display : Text

pub record NewThread : Type 0 where
  pub group_id : ℕ
  pub author_id : ℕ
  pub title : Text

pub record Post : Type 0 where
  pub id : ℕ
  pub thread_id : ℕ
  pub author_id : ℕ
  pub body : Text
  pub edited_by_id : Option ℕ
  pub edited_at : Option ℕ
  pub created_at : ℕ
  pub updated_at : ℕ

pub record PostSummary : Type 0 where
  pub post : Post
  pub author_username : Text
  pub author_display : Text

pub record NewPost : Type 0 where
  pub thread_id : ℕ
  pub author_id : ℕ
  pub body : Text

pub record PrivateMessage : Type 0 where
  pub id : ℕ
  pub sender_id : ℕ
  pub recipient_id : ℕ
  pub body : Text
  pub read_at : Option ℕ
  pub created_at : ℕ

pub record NewPrivateMessage : Type 0 where
  pub sender_id : ℕ
  pub recipient_id : ℕ
  pub body : Text

pub record PmConversation : Type 0 where
  pub message : PrivateMessage
  pub sender_username : Text
  pub sender_display : Text

-- The payload of a `pm` notification; its JSON text is not modelled.
pub data Payload : Type 0 where
  empty_object : Payload
  pm_payload : (message_id sender_id : ℕ) → (preview : Text) → Payload

pub record Notification : Type 0 where
  pub id : ℕ
  pub user_id : ℕ
  pub kind : Text
  pub payload : Payload
  pub read_at : Option ℕ
  pub created_at : ℕ

pub record NewNotification : Type 0 where
  pub user_id : ℕ
  pub kind : Text
  pub payload : Option Payload

pub record Attachment : Type 0 where
  pub id : ℕ
  pub owner_id : ℕ
  pub post_id : Option ℕ
  pub filename : Text
  pub content_type : Text
  pub size_bytes : ℕ
  pub storage_key : Text
  pub public_url : Text
  pub created_at : ℕ
  pub updated_at : ℕ

pub record NewAttachment : Type 0 where
  pub owner_id : ℕ
  pub post_id : Option ℕ
  pub filename : Text
  pub content_type : Text
  pub size_bytes : ℕ
  pub storage_key : Text
  pub public_url : Text

pub record AttachmentWithOwner : Type 0 where
  pub attachment : Attachment
  pub owner_username : Text
