-- ===== src/Config.antt =====
-- internal/config/config.go: the configuration, its check and the cookie flag. Durations are
-- nanoseconds.
use masonic_core.Prelude.{ℕ, Bool, true, false, ◌||◌, ltb, length, [], ◌∷◌, if◌then◌else◌}
use masonic_core.Text.{Text, text, text_eq}

pub record Config : Type 0 where
  pub app_env : Text
  pub http_addr : Text
  pub database_url : Text
  pub jwt_secret : Text
  pub jwt_issuer : Text
  pub access_ttl : ℕ
  pub refresh_ttl : ℕ
  pub refresh_cookie_name : Text
  pub refresh_cookie_secure : Bool
  pub s3_endpoint : Text
  pub s3_access_key : Text
  pub s3_secret_key : Text
  pub s3_bucket : Text
  pub s3_region : Text
  pub s3_use_ssl : Bool
  pub s3_force_path_style : Bool
  pub media_base_url : Text

-- The results of Validate: no error, or one of its three.
pub data Verdict : Type 0 where
  valid no_database_url weak_jwt_secret no_s3_access : Verdict

abbrev pub is_empty : Text → Bool
is_empty [] = true
is_empty (c ∷ s) = false

unfoldable pub validate : Config → Verdict
validate c =
    if is_empty c.database_url
    then no_database_url
    else if ltb (length c.jwt_secret) 32
    then weak_jwt_secret
    else if is_empty c.s3_endpoint || (is_empty c.s3_access_key || is_empty c.s3_secret_key)
    then no_s3_access
    else valid

unfoldable pub secure_cookies : Config → Bool
secure_cookies c = c.refresh_cookie_secure || text_eq c.app_env (text "production")
