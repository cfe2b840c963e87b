-- ===== src/Auth/Tokens.antt =====
-- internal/auth/jwt.go: access tokens over an abstract JWT library, and refresh tokens.
use masonic_core.Prelude.{ℕ, ◌+◌, Option, none, some, List}
use masonic_core.Text.{Text}
use masonic_core.World.{
  Claims, Env, bad_token, failure, ok, M, pure, raise, ◌>>=◌, time_now, read_random,
}
use masonic_core.Config.{Config}
use masonic_core.Auth.Base64.{encode}

-- RefreshTokenBytes
abbrev pub refresh_token_bytes : ℕ
refresh_token_bytes = 32

-- UserInfo
pub record UserInfo : Type 0 where
  pub id : ℕ
  pub username : Text
  pub roles : List Text

-- The claims that `issue` signs at a time.
unfoldable pub claims_at : Config → Env → ℕ → ℕ → Text → List Text → Claims
claims_at cfg env now user_id username roles = record {
  subject = env.uuid_text user_id;
  username = username;
  roles = roles;
  issuer = cfg.jwt_issuer;
  issued_at = now;
  not_before = now;
  expires_at = now + cfg.access_ttl;
}

-- NewAccessToken
unfoldable pub new_access_token : Config → ℕ → Text → List Text → M Text
unfolding claims_at time_now
new_access_token cfg user_id username roles = do
  now ← time_now
  λ w. ok (w.env.sign cfg.jwt_secret (claims_at cfg w.env now user_id username roles)) w

abbrev pub or_bad_token {ℓ} : {A : Type ℓ} → Option A → M A
or_bad_token none = raise (failure bad_token)
or_bad_token (some a) = pure a

-- Parse
unfoldable pub parse : Config → Text → M Claims
unfolding time_now
parse cfg raw = do
  now ← time_now
  λ w. or_bad_token (w.env.open_token cfg.jwt_secret cfg.jwt_issuer now raw) w

-- NewRefreshToken: a fresh token and its digest.
unfoldable pub new_refresh_token : M (Text × Text)
unfolding read_random encode
new_refresh_token = do
  buf ← read_random refresh_token_bytes
  λ w. let token = encode 45 95 buf in ok (token, w.env.digest token) w

-- HashRefreshToken, which has no error.
unfoldable pub hash_refresh_token : Text → M Text
hash_refresh_token token w = ok (w.env.digest token) w
