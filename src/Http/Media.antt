-- ===== src/Http/Media.antt =====
-- media.go
use masonic_core.Prelude.{ℕ, Bool, true, not, Option, none, some, [], ◌∷◌, ◌==◌}
use masonic_core.Text.{Text, text, text_eq}
use masonic_core.Storage.{open_object, stat_object}
use masonic_core.Services.Media
use masonic_core.Http.{
  Server, Action, Handler, Response, account_body, attachment_body, object_body,
}
use masonic_core.Http.Answers.{
  reply, json, refusal, no_content, attempt, or_refuse, parsed, stop_if, core,
}
use masonic_core.Http.Input.{value_of, with_id, with_user}

abbrev missing_file : Response
missing_file = refusal 400 (text "missing_file") (text "a multipart file field 'file' is required")

unfoldable pub upload_avatar : Server → Handler
upload_avatar srv r = with_user r λ user. or_refuse r.file missing_file λ file.
    attempt (Media.upload_avatar srv.config user.id file.filename file.content_type file.size) core
      λ u. reply (json 200 (account_body u))

-- The optional form value "post_id".
unfoldable pub with_post : Text → (Option ℕ → Action) → Action
with_post [] good = good none
with_post (c ∷ raw) good =
    parsed (c ∷ raw) (refusal 400 (text "invalid_id") (text "Invalid post id"))
      (λ id. good (some id))

unfoldable pub upload_attachment : Server → Handler
unfolding with_post
upload_attachment srv r = with_user r λ user. or_refuse r.file missing_file λ file.
    with_post (value_of (text "post_id") r.form) λ post_id.
      attempt
        (Media.upload_attachment srv.config user.id post_id file.filename file.content_type
          file.size)
        core λ a. reply (json 201 (attachment_body a))

unfoldable pub delete_attachment : Handler
delete_attachment r = with_user r λ user.
    with_id r (text "attachmentID") (text "Invalid attachment id")
      λ id. attempt (Media.delete_attachment id user.id user.roles) core λ _. reply no_content

abbrev media_not_found : Response
media_not_found = refusal 404 (text "media_not_found") (text "File not found")

-- `key == "" || key[0] == '/'`
abbrev pub is_bad_key : Text → Bool
is_bad_key [] = true
is_bad_key (c ∷ key) = c == b'/'

-- Serve; the response streams the object, with its type and size and a header for caches.
unfoldable pub serve : Server → Handler
serve srv r =
    let key = value_of (text "*") r.params in
    stop_if (not (text_eq (value_of (text "bucket") r.params) srv.config.s3_bucket)) media_not_found
      (stop_if (is_bad_key key) media_not_found (
        attempt (open_object key) (λ _. reply media_not_found)
          λ _.
            attempt (stat_object key) (λ _. reply media_not_found)
              λ _. reply (json 200 (object_body key))))
