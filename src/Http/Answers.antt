-- ===== src/Http/Answers.antt =====
-- response.go and the error mapping of core.go, with the ways to go on from a value or an error.
use masonic_core.Prelude.{ℕ, Bool, true, false, Option, none, some}
use masonic_core.Text.{Text, text}
use masonic_core.World.{
  Error, user_not_found, not_found, group_not_found, thread_not_found, post_not_found,
  attachment_not_found, forbidden, invalid_input, conflict, thread_locked, not_empty,
  file_too_large, unsupported_type, Outcome, ok, err, M,
}
use masonic_core.Http.{Body, no_body, error_body, Response, Site, Action}

abbrev pub reply : Response → Action
reply r s = (r, s)

-- writeJSON
abbrev pub json : ℕ → Body → Response
json status body = record { status = status; cookie = none; body = body }

-- writeError
abbrev pub refusal : ℕ → Text → Text → Response
refusal status code message = json status (error_body code message)

-- writeServerError; the error goes to the log only.
abbrev pub server_error : Error → Response
server_error e = refusal 500 (text "internal_error") (text "an unexpected error occurred")

-- w.WriteHeader(http.StatusNoContent)
abbrev pub no_content : Response
no_content = json 204 no_body

-- writeCoreError
unfoldable pub core_error : Error → Response
core_error invalid_input = refusal 400 (text "validation_error") (text "Invalid request")
core_error forbidden = refusal 403 (text "forbidden") (text "Forbidden")
core_error group_not_found = refusal 404 (text "group_not_found") (text "Group not found")
core_error thread_not_found = refusal 404 (text "thread_not_found") (text "Thread not found")
core_error post_not_found = refusal 404 (text "post_not_found") (text "Post not found")
core_error not_found = refusal 404 (text "not_found") (text "Resource not found")
core_error user_not_found = refusal 404 (text "user_not_found") (text "User not found")
core_error attachment_not_found =
    refusal 404 (text "attachment_not_found") (text "Attachment not found")
core_error file_too_large = refusal 413 (text "payload_too_large") (text "File is too large")
core_error unsupported_type =
    refusal 415 (text "unsupported_content_type") (text "File type is not supported")
core_error thread_locked = refusal 409 (text "thread_locked") (text "Thread is locked")
core_error not_empty = refusal 409 (text "not_empty") (text "Resource is not empty")
core_error conflict = refusal 409 (text "conflict") (text "Resource already exists")
core_error e = server_error e

module _ {ℓ} {A : Type ℓ} where
  abbrev pub answer : (Error → Action) → (A → Action) → Site → Outcome A → Response × Site
  answer bad good s (ok a w) = good a (record s { world = w })
  answer bad good s (err e w) = bad e (record s { world = w })

  -- `x, err := call; if err != nil { … return }`
  abbrev pub attempt : M A → (Error → Action) → (A → Action) → Action
  attempt m bad good s = answer bad good s (m s.world)

  -- `if !ok { … return }`
  abbrev pub or_refuse : Option A → Response → (A → Action) → Action
  or_refuse none bad good s = (bad, s)
  or_refuse (some a) bad good s = good a s

-- `id, err := uuid.Parse(raw); if err != nil { … return }`
abbrev pub parsed : Text → Response → (ℕ → Action) → Action
parsed raw bad good s = or_refuse (s.world.env.parse_uuid raw) bad good s

-- `if b { … return }`
abbrev pub stop_if : Bool → Response → Action → Action
stop_if true bad good s = (bad, s)
stop_if false bad good s = good s

-- `writeCoreError(w, err)`
abbrev pub core : Error → Action
core e = reply (core_error e)

abbrev pub unauthorized : Response
unauthorized = refusal 401 (text "unauthorized") (text "authentication required")
