-- ===== src/Http/Gate.antt =====
-- middleware.go: the two guards in front of the handlers.
use masonic_core.Prelude.{ℕ, not, some, List}
use masonic_core.Text.{Text, text}
use masonic_core.World.{Claims}
use masonic_core.Config.{is_empty}
use masonic_core.Auth.Tokens.{parse}
use masonic_core.Services.Roles.{has_role}
use masonic_core.Http.{Server, Action, Handler}
use masonic_core.Http.Answers.{reply, refusal, attempt, or_refuse, parsed, stop_if, unauthorized}
use masonic_core.Http.Input.{bearer_token}

abbrev pub invalid_token : Text → Action
invalid_token message = reply (refusal 401 (text "invalid_token") message)

-- A token that holds, and the identifier that its subject is.
unfoldable pub identify : Server → Text → Text → (ℕ → Claims → Action) → Action
identify srv raw message good =
    attempt (parse srv.config raw) (λ _. invalid_token message)
      λ claims.
        parsed claims.subject (refusal 401 (text "invalid_token") message) (λ id. good id claims)

unfoldable pub require_auth : Server → Handler → Handler
unfolding identify bearer_token
require_auth srv good r =
    let raw = bearer_token r.authorization in
    stop_if (is_empty raw) unauthorized (
      identify srv raw (text "access token is invalid or expired") λ id claims. good (record r {
        user = some (record { id = id; username = claims.username; roles = claims.roles });
      }))

unfoldable pub require_role : List Text → Handler → Handler
require_role roles good r = or_refuse r.user unauthorized λ u.
    stop_if (not (has_role u.roles roles))
      (refusal 403 (text "forbidden") (text "insufficient permissions")) (good r)
