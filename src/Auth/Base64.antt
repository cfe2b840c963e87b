-- ===== src/Auth/Base64.antt =====
-- The encodings of `encoding/base64` without padding: RawStdEncoding and RawURLEncoding differ in
-- the two last digits.
use masonic_core.Prelude.{
  ℕ, ◌+◌, ◌-◌, ◌*◌, ◌/◌, ◌%◌, ◌<◌, ◌≡◌, ◌&&◌, ◌||◌, Option, none, some, List, [], ◌∷◌, arith, ltb,
  leb, ◌==◌, if◌then◌else◌, bind_option, keep_rows, not,
}

module _ (p q : ℕ) where
  unfoldable pub digit : ℕ → ℕ
  digit n =
      if ltb n 26
      then n + 65
      else if ltb n 52
      then n + 71
      else if ltb n 62
      then n - 4
      else if n == 62
      then p
      else q

  unfoldable pub value : ℕ → Option ℕ
  value c =
      if leb 65 c && leb c 90
      then some (c - 65)
      else if leb 97 c && leb c 122
      then some (c - 71)
      else if leb 48 c && leb c 57
      then some (c + 4)
      else if c == p
      then some 62
      else if c == q
      then some 63
      else none

  -- EncodeToString
  unfoldable pub encode : List ℕ → List ℕ
  encode [] = []
  encode (a ∷ []) = digit (a / 4) ∷ digit (a % 4 * 16) ∷ []
  encode (a ∷ b ∷ []) = digit (a / 4) ∷ digit (a % 4 * 16 + b / 16) ∷ digit (b % 16 * 4) ∷ []
  encode (a ∷ b ∷ c ∷ s) =
      digit (a / 4)
      ∷ digit (a % 4 * 16 + b / 16)
      ∷ digit (b % 16 * 4 + c / 64)
      ∷ digit (c % 64)
      ∷ encode s

  unfoldable pub values : List ℕ → Option (List ℕ)
  values [] = some []
  values (c ∷ s) =
      let rest = values s in bind_option (value c) (λ n. bind_option rest (λ ns. some (n ∷ ns)))

-- Four digits are three bytes; a last group of one digit is an error.
unfoldable pub bytes_of : List ℕ → Option (List ℕ)
bytes_of [] = some []
bytes_of (a ∷ []) = none
bytes_of (a ∷ b ∷ []) = some ((a * 4 + b / 16) ∷ [])
bytes_of (a ∷ b ∷ c ∷ []) = some ((a * 4 + b / 16) ∷ (b % 16 * 16 + c / 4) ∷ [])
bytes_of (a ∷ b ∷ c ∷ d ∷ s) =
    bind_option (bytes_of s)
      (λ r. some ((a * 4 + b / 16) ∷ (b % 16 * 16 + c / 4) ∷ (c % 4 * 64 + d) ∷ r))

-- DecodeString, which skips line breaks.
unfoldable pub decode : ℕ → ℕ → List ℕ → Option (List ℕ)
unfolding values value bytes_of
decode p q s = bind_option (values p q (keep_rows (λ c. not (c == 10 || c == 13)) s)) bytes_of

abbrev pub IsByte : ℕ → Type 0
IsByte n = n < 256

value-digit : (n : ℕ) → n < 64 → value 43 47 (digit 43 47 n) ≡ some n
unfolding digit value
value-digit n h = ground arith
