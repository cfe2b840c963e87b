-- ===== src/Http/Input.antt =====
-- core.go and middleware.go: what the handlers read of a request.
use masonic_core.Prelude.{
  ℕ, ◌+◌, ◌-◌, ◌*◌, ◌^◌, Bool, true, false, ◌&&◌, Option, none, some, List, [], ◌∷◌, map, ltb, leb,
  ◌==◌, if◌then◌else◌, length, take, drop, ℤ, pos, negsuc,
}
use masonic_core.Text.{Text, text, text_eq}
use masonic_core.Text.Space.{trim_space}
use masonic_core.Text.HostPort.{split_host_port}
use masonic_core.Auth.Tokens.{UserInfo}
use masonic_core.Http.{Request, Action}
use masonic_core.Http.Answers.{refusal, or_refuse, parsed, unauthorized}

-- The first value of a key, and "" for none: chi.URLParam, url.Values.Get, r.FormValue.
unfoldable pub value_of : Text → List (Text × Text) → Text
value_of key [] = []
value_of key ((k, v) ∷ kvs) = if text_eq k key then v else value_of key kvs

-- r.Cookie
unfoldable pub cookie_of : Text → List (Text × Text) → Option Text
cookie_of name [] = none
cookie_of name ((k, v) ∷ kvs) = if text_eq k name then some v else cookie_of name kvs

abbrev is_digit : ℕ → Bool
is_digit c = leb b'0' c && leb c b'9'

-- The value of decimal digits, all of a text and at least one, from a value of the digits before.
unfoldable pub digits_value : ℕ → Text → Option ℕ
digits_value n [] = some n
digits_value n (c ∷ s) =
    let rest = digits_value (n * 10 + (c - b'0')) s in if is_digit c then rest else none

unfoldable pub unsigned : Text → Option ℕ
unfolding digits_value
unsigned [] = none
unsigned (c ∷ s) = digits_value 0 (c ∷ s)

-- A number in the range of int64.
unfoldable pub fits : Bool → Option ℕ → Option ℤ
fits negative none = none
fits true (some n) =
    if leb n (2 ^ 63) then some (if n == 0 then pos 0 else negsuc (n - 1)) else none
fits false (some n) = if ltb n (2 ^ 63) then some (pos n) else none

-- strconv.Atoi
unfoldable pub atoi : Text → Option ℤ
unfolding unsigned fits
atoi [] = none
atoi (c ∷ s) =
    if c == b'-'
    then fits true (unsigned s)
    else if c == b'+'
    then fits false (unsigned s)
    else fits false (unsigned (c ∷ s))

-- `n >= 1 && n <= 100`, and otherwise the default.
unfoldable pub limit_or : ℕ → Option ℤ → ℕ
limit_or default none = default
limit_or default (some (negsuc n)) = default
limit_or default (some (pos n)) = if leb 1 n && leb n 100 then n else default

-- `n >= 0`, and otherwise the default.
unfoldable pub offset_or : ℕ → Option ℤ → ℕ
offset_or default none = default
offset_or default (some (negsuc n)) = default
offset_or default (some (pos n)) = n

-- An absent value is "", which Atoi refuses too.
unfoldable pub pagination : Request → ℕ × ℕ
unfolding value_of atoi limit_or offset_or
pagination r = (
  limit_or 20 (atoi (value_of (text "limit") r.query)),
  offset_or 0 (atoi (value_of (text "offset") r.query)),
)

-- pathID, with the refusal that every caller gives.
abbrev pub with_id : Request → Text → Text → (ℕ → Action) → Action
with_id r key message good =
    parsed (value_of key r.params) (refusal 400 (text "invalid_id") message) good

-- authUser, with the refusal that every caller gives.
abbrev pub with_user : Request → (UserInfo → Action) → Action
with_user r good = or_refuse r.user unauthorized good

unfoldable pub lower_ascii : ℕ → ℕ
lower_ascii b = if leb b'A' b && leb b b'Z' then b + 32 else b

-- strings.EqualFold with "Bearer ", of which no letter has a fold outside of ASCII.
unfoldable pub same_fold : Text → Text → Bool
unfolding lower_ascii
same_fold s t = text_eq (map lower_ascii s) (map lower_ascii t)

abbrev pub bearer_prefix : Text
bearer_prefix = text "Bearer "

unfoldable pub bearer_token : Text → Text
unfolding same_fold
bearer_token header =
    if ltb (length bearer_prefix) (length header)
      && same_fold (take (length bearer_prefix) header) bearer_prefix
    then trim_space (drop (length bearer_prefix) header)
    else []

unfoldable pub host_or : Text → Option Text → Text
host_or addr none = addr
host_or addr (some host) = host

-- clientIP
unfoldable pub client_ip : Request → Text
unfolding host_or
client_ip r = host_or r.remote_addr (split_host_port r.remote_addr)
