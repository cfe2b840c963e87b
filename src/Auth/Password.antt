-- ===== src/Auth/Password.antt =====
-- internal/auth/password.go, over an abstract argon2.IDKey. Bytes are kept as numbers; the panics of
-- IDKey for zero iterations or lanes are outside of the model.
use masonic_core.Prelude.{
  ℕ, ◌*◌, ◌%◌, ◌^◌, Bool, true, false, Option, none, some, List, [], ◌∷◌, ◌++◌, ◌==◌, if◌then◌else◌,
  length, bind_option,
}
use masonic_core.Text.{Text, text, text_eq}
use masonic_core.World.{
  Env, Fault, bad_version, bad_parameters, bad_salt, bad_key, failure, ok, M, pure, raise, ◌>>=◌,
  read_random,
}
use masonic_core.Auth.Base64.{encode, decode}
use masonic_core.Auth.Scan.{split, decimal, scan_number, scan_signed, scan_literal}

pub record Params : Type 0 where
  pub memory : ℕ
  pub iterations : ℕ
  pub parallelism : ℕ
  pub salt_length : ℕ
  pub key_length : ℕ

abbrev pub default_params : Params
default_params = record {
  memory = 64 * 1024;
  iterations = 3;
  parallelism = 2;
  salt_length = 16;
  key_length = 32;
}

-- argon2.Version
abbrev version : ℕ
version = 0x13

abbrev to_base64 : List ℕ → Text
to_base64 = encode 43 47

abbrev of_base64 : Text → Option (List ℕ)
of_base64 = decode 43 47

-- The format string of Hash.
unfoldable pub encoded : Params → List ℕ → List ℕ → Text
unfolding encode decimal
encoded p salt key =
    text "$argon2id$v="
    ++ (decimal version
        ++ (text "$m="
            ++ (decimal p.memory
                ++ (text ",t="
                    ++ (decimal p.iterations
                        ++ (text ",p="
                            ++ (decimal p.parallelism
                                ++ (text "$"
                                    ++ (to_base64 salt ++ (text "$" ++ to_base64 key))))))))))

unfoldable pub derive_key : Env → Params → Text → List ℕ → List ℕ
derive_key env p password salt =
    env.idkey password salt p.iterations p.memory p.parallelism p.key_length

unfoldable pub hash : Params → Text → M Text
unfolding encoded derive_key
hash p password = do
  salt ← read_random p.salt_length
  λ w. ok (encoded p salt (derive_key w.env p password salt)) w

pub data Check : Type 0 where
  matches differs : Check
  broken : Fault → Check

-- Sscanf(s, "v=%d", &version) for an int.
scan_version : Text → Option ℕ
unfolding scan_literal scan_signed
scan_version s =
    bind_option (scan_literal (text "v=") s)
      λ r. bind_option (scan_signed (2 ^ 63) r) λ (n, _). some n

-- Sscanf(s, "m=%d,t=%d,p=%d", …) for uint32, uint32 and uint8.
scan_params : Text → Option (ℕ × ℕ × ℕ)
unfolding scan_literal scan_number
scan_params s = bind_option (scan_literal (text "m=") s) λ r1.
    bind_option (scan_number (2 ^ 32) r1) λ (m, r2).
      bind_option (scan_literal (text ",t=") r2) λ r3.
        bind_option (scan_number (2 ^ 32) r3) λ (t, r4).
          bind_option (scan_literal (text ",p=") r4)
            λ r5. bind_option (scan_number (2 ^ 8) r5) λ (p, _). some (m, t, p)

-- ConstantTimeCompare of the derived and the stored key.
compare_keys : List ℕ → List ℕ → Check
compare_keys key expected = if text_eq key expected then matches else differs

-- From the parameters on.
check_key : Env → Text → Option (ℕ × ℕ × ℕ) → Option (List ℕ) → Option (List ℕ) → Check
unfolding compare_keys
check_key env password none salt expected = broken bad_parameters
check_key env password (some c) none expected = broken bad_salt
check_key env password (some c) (some salt) none = broken bad_key
check_key env password (some (m, t, p)) (some salt) (some expected) =
    compare_keys (env.idkey password salt t m p (length expected % 2 ^ 32)) expected

check_version : Option ℕ → Check → Check
check_version none c = broken bad_version
check_version (some v) c = if v == version then c else broken bad_version

-- The parts of a hash: Verify wants six, the second being `argon2id`.
check_parts : Env → Text → List Text → Check
unfolding scan_version scan_params check_key check_version decode
check_parts env password (p0 ∷ p1 ∷ p2 ∷ p3 ∷ p4 ∷ p5 ∷ []) =
    if text_eq p1 (text "argon2id")
    then check_version (scan_version p2)
        (check_key env password (scan_params p3) (of_base64 p4) (of_base64 p5))
    else differs
check_parts env password _ = differs

unfoldable pub check : Env → Text → Text → Check
unfolding check_parts split
check env password stored = check_parts env password (split b'$' stored)

abbrev pub answer : Check → M Bool
answer matches = pure true
answer differs = pure false
answer (broken f) = raise (failure f)

unfoldable pub verify : Text → Text → M Bool
unfolding check
verify password stored w = answer (check w.env password stored) w
