-- ===== src/Http/Probes.antt =====
-- health.go and version.go
use masonic_core.Prelude.{ℕ}
use masonic_core.Text.{text}
use masonic_core.World.{M, rows, statement}
use masonic_core.Http.{Server, Handler, health_body, version_body}
use masonic_core.Http.Answers.{reply, json, refusal, attempt}

unfoldable pub health : Handler
health r = reply (json 200 (health_body (text "ok")))

-- internal/db: Ping and SchemaVersion.
unfoldable pub ping : M (Unit {0})
ping = statement (λ st d. rows tt d)

unfoldable pub schema_version : Server → M ℕ
schema_version srv = statement (λ st d. rows srv.schema d)

unfoldable pub ready : Handler
unfolding ping
ready r =
    attempt ping
      (λ _. reply (refusal 503 (text "db_unavailable") (text "database is not reachable")))
      λ _. reply (json 200 (health_body (text "ready")))

unfoldable pub version : Server → Handler
unfolding schema_version
version srv r =
    attempt (schema_version srv)
      (λ _.
        reply (refusal 500 (text "schema_version_failed") (text "failed to read schema version")))
      λ v. reply (json 200 (version_body srv.backend v))
