-- ===== src/Services/Media.antt =====
-- internal/services/media.go
use masonic_core.Prelude.{
  ℕ, ◌*◌, ◌^◌, ◌&&◌, ◌||◌, not, Option, none, some, List, ◌∷◌, ◌++◌, ltb, ◌==◌, if◌then◌else◌,
  length, take,
}
use masonic_core.Text.{Text, text, text_eq, has_prefix}
use masonic_core.Models.{User, Attachment}
use masonic_core.World.{
  post_not_found, attachment_not_found, forbidden, invalid_input, file_too_large, unsupported_type,
  M, pure, handle, ◌>>=◌, ◌>>◌, refuse_if, missing_as,
}
use masonic_core.Text.Space.{trim_space}
use masonic_core.Text.Paths.{base, trim_right_slashes}
use masonic_core.Config.{Config, is_empty}
use masonic_core.Storage.{avatar_key, attachment_key, upload, remove}
use masonic_core.Store.User
use masonic_core.Store.Post
use masonic_core.Store.Attachment
use masonic_core.Services.Roles.{is_moderator}

abbrev pub max_avatar_size : ℕ
max_avatar_size = 2 * 2 ^ 20

abbrev pub max_attachment_size : ℕ
max_attachment_size = 20 * 2 ^ 20

abbrev pub max_filename_length : ℕ
max_filename_length = 160

-- mediaURL
unfoldable pub media_url : Config → Text → Text
media_url cfg key =
    trim_right_slashes cfg.media_base_url ++ (b'/' ∷ (cfg.s3_bucket ++ (b'/' ∷ key)))

-- A base name that stands for no file is replaced, and a long one cut.
unfoldable pub clip_name : Text → Text
clip_name name =
    if is_empty name || (text_eq name (text ".") || text_eq name (text "/"))
    then text "file"
    else if ltb max_filename_length (length name)
    then take max_filename_length name
    else name

unfoldable pub sanitize_filename : Text → Text
unfolding clip_name
sanitize_filename name = clip_name (base (trim_space name))

unfoldable pub upload_avatar : Config → ℕ → Text → Text → ℕ → M User
upload_avatar cfg user_id filename content_type size = do
  refuse_if (size == 0) invalid_input
  refuse_if (ltb max_avatar_size size) file_too_large
  refuse_if (not (has_prefix (trim_space content_type) (text "image/"))) unsupported_type
  key ← avatar_key user_id filename
  upload key
  User.update_avatar user_id (media_url cfg key)

-- A post that is named has to exist.
unfoldable pub check_post : Option ℕ → M (Unit {0})
check_post none = pure tt
check_post (some id) = do _ ← handle (Post.get_by_id id) (missing_as post_not_found); pure tt

abbrev default_type : Text → Text
default_type t = if is_empty t then text "application/octet-stream" else t

unfoldable pub upload_attachment : Config → ℕ → Option ℕ → Text → Text → ℕ → M Attachment
unfolding check_post
upload_attachment cfg user_id post_id filename content_type size = do
  refuse_if (size == 0) invalid_input
  refuse_if (ltb max_attachment_size size) file_too_large
  check_post post_id
  key ← attachment_key filename
  upload key
  Attachment.create (record {
    owner_id = user_id;
    post_id = post_id;
    filename = sanitize_filename filename;
    content_type = default_type content_type;
    size_bytes = size;
    storage_key = key;
    public_url = media_url cfg key;
  })

unfoldable pub delete_attachment : ℕ → ℕ → List Text → M (Unit {0})
delete_attachment id caller_id roles = do
  a ← handle (Attachment.get_by_id id) (missing_as attachment_not_found)
  refuse_if (not (a.owner_id == caller_id) && not (is_moderator roles)) forbidden
  remove a.storage_key
  Attachment.delete id
