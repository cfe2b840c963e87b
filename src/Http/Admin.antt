-- ===== src/Http/Admin.antt =====
-- admin.go
use masonic_core.Prelude.{Bool, true, false, ◌&&◌, Option, none, some}
use masonic_core.Text.{text}
use masonic_core.Services.Admin
use masonic_core.Http.{
  Server, Handler, Response, users_body, member_body, settings_body, media_body,
}
use masonic_core.Http.Answers.{reply, json, refusal, attempt, or_refuse, stop_if, core}
use masonic_core.Http.Input.{pagination, with_id}

abbrev malformed : Response
malformed = refusal 400 (text "malformed_request") (text "Malformed request body")

unfoldable pub list_users : Handler
list_users r =
    let (limit, offset) = pagination r in
    attempt (Admin.list_users limit offset) core
      λ (items, total). reply (json 200 (users_body items total limit offset))

abbrev is_nil {ℓ} : {A : Type ℓ} → Option A → Bool
is_nil none = true
is_nil (some a) = false

unfoldable pub update_user : Server → Handler
update_user srv r = with_id r (text "userID") (text "Invalid user id") λ id.
    or_refuse (srv.decoders.update_user_request r.payload) malformed λ req.
      stop_if (is_nil req.roles && is_nil req.status)
        (refusal 400 (text "validation_error") (text "Provide roles or status"))
        (attempt (Admin.update_user id req.roles req.status) core
          λ u. reply (json 200 (member_body u)))

unfoldable pub get_settings : Handler
get_settings r = attempt Admin.get_settings core λ name. reply (json 200 (settings_body name))

unfoldable pub update_settings : Server → Handler
update_settings srv r =
    or_refuse (srv.decoders.update_settings_request r.payload) malformed λ name.
      attempt (Admin.update_settings name) core λ name. reply (json 200 (settings_body name))

unfoldable pub list_media : Handler
list_media r =
    let (limit, offset) = pagination r in
    attempt (Admin.list_media limit offset) core
      λ (items, total). reply (json 200 (media_body items total limit offset))
