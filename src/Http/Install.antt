-- ===== src/Http/Install.antt =====
-- install.go
use masonic_core.Text.{text}
use masonic_core.World.{Error, already_installed, invalid_input, conflict}
use masonic_core.Services.Install
use masonic_core.Http.{Server, Handler, Response, status_body, installed_body}
use masonic_core.Http.Answers.{reply, json, refusal, server_error, attempt, or_refuse}

unfoldable pub get_status : Handler
get_status r =
    attempt Install.status (λ e. reply (server_error e)) λ st. reply (json 200 (status_body st))

unfoldable pub install_error : Error → Response
install_error already_installed =
    refusal 409 (text "already_installed") (text "The forum is already installed")
install_error invalid_input =
    refusal 400 (text "validation_error") (text "Check the submitted fields")
install_error conflict =
    refusal 409 (text "user_exists") (text "That username or email already exists")
install_error e = server_error e

unfoldable pub create : Server → Handler
unfolding install_error
create srv r =
    or_refuse (srv.decoders.install_request r.payload)
      (refusal 400 (text "malformed_request") (text "Invalid JSON body"))
      λ req.
        attempt
          (Install.setup (record {
            forum_name = req.forum_name;
            admin_username = req.admin_username;
            admin_email = req.admin_email;
            admin_password = req.admin_password;
          }))
          (λ e. reply (install_error e))
          λ user. reply (json 201 (installed_body req.forum_name user))
