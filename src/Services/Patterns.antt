-- ===== src/Services/Patterns.antt =====
-- The regular expressions of internal/services/auth.go and group.go, from their literals, and the
-- text limits that go with them.
use masonic_core.Prelude.{ℕ, Bool, ◌&&◌, ◌||◌, not, leb, ◌==◌}
use masonic_core.Text.Regex.{Re, one, both, star, plus, between}

unfoldable pub word_byte : ℕ → Bool
word_byte c =
    leb b'a' c && leb c b'z'
    || (leb b'A' c && leb c b'Z' || (leb b'0' c && leb c b'9' || c == b'_'))

-- ^[a-zA-Z0-9_]{3,32}$
unfoldable pub username_re : Re
unfolding word_byte
username_re = between 3 29 (one word_byte)

-- [^@\s], where \s is a tab, a line feed, a form feed, a carriage return or a space.
address_byte : ℕ → Bool
address_byte c = not (c == b'@' || (c == 9 || (c == 10 || (c == 12 || (c == 13 || c == 32)))))

-- ^[^@\s]+@[^@\s]+\.[^@\s]+$
unfoldable pub email_re : Re
unfolding address_byte
email_re = both (plus (one address_byte)) (
    both (one (λ c. c == b'@'))
      (both (plus (one address_byte)) (both (one (λ c. c == b'.')) (plus (one address_byte)))))

slug_byte : ℕ → Bool
slug_byte c = leb b'a' c && leb c b'z' || leb b'0' c && leb c b'9'

-- ^[a-z0-9]+(-[a-z0-9]+)*$
unfoldable pub slug_re : Re
unfolding slug_byte
slug_re = both (plus (one slug_byte)) (star (both (one (λ c. c == b'-')) (plus (one slug_byte))))
