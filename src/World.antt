-- ===== src/World.antt =====
-- What a request runs in: the tables of PostgreSQL, the bucket, and the outside (clock, random
-- source, cryptographic primitives, and which calls fail), with the actions over it.
pub mod Rules
pub mod Steady
use masonic_core.Prelude.{
  ℕ, suc, ◌≡◌, Bool, true, false, List, Option, none, some, if◌then◌else◌, order_rows,
}
use masonic_core.Text.{Text}
use masonic_core.Models.{
  User, Role, UserRole, Session, Group, Thread, Post, PrivateMessage, Notification, Attachment,
}

-- A JSON value of the settings table, of the two kinds that the services store.
pub data Setting : Type 0 where
  flag_value : Bool → Setting
  text_value : Text → Setting

-- migrations/*.sql
pub record Database : Type 0 where
  pub settings : List (Text × Setting)
  pub users : List User
  pub roles : List Role
  pub user_roles : List UserRole
  pub sessions : List Session
  pub groups : List Group
  pub threads : List Thread
  pub posts : List Post
  pub attachments : List Attachment
  pub messages : List PrivateMessage
  pub notifications : List Notification

-- The claims that an access token is signed over.
pub record Claims : Type 0 where
  pub subject : Text
  pub username : Text
  pub roles : List Text
  pub issuer : Text
  pub issued_at : ℕ
  pub not_before : ℕ
  pub expires_at : ℕ

-- Code outside of the repository. Each call of it takes the next number: `outage n` says that call n
-- fails, `clock n` is the time it reads, `uuid n` and `random n` what it draws. `idkey` is
-- argon2.IDKey over password, salt, iterations, memory, parallelism and key length; `digest` is the
-- SHA-256 digest in hexadecimal; `sign` is SignedString and `open_token` is
-- ParseWithClaims, for a secret, an issuer and a time; `uuid_text` prints a UUID, and `parse_uuid` is
-- uuid.Parse. Of PostgreSQL,
-- `lower` is its function, `before` its order of texts, and `inet_text` what a text becomes as an
-- `inet` value, if it is one; `jsonb` is what a text becomes when json.Marshal writes it and `jsonb`
-- reads it, if `jsonb` takes it; `tie n` orders the identifiers of rows as call n scans them, which
-- decides between rows that its ORDER BY leaves equal.
pub record Env : Type 0 where
  pub outage : ℕ → Bool
  pub clock : ℕ → ℕ
  pub uuid : ℕ → ℕ
  pub random : ℕ → ℕ → List ℕ
  pub idkey : Text → List ℕ → ℕ → ℕ → ℕ → ℕ → List ℕ
  pub digest : Text → Text
  pub sign : Text → Claims → Text
  pub open_token : Text → Text → ℕ → Text → Option Claims
  pub uuid_text : ℕ → Text
  pub parse_uuid : Text → Option ℕ
  pub lower : Text → Text
  pub before : Text → Text → Bool
  pub inet_text : Text → Option Text
  pub jsonb : Text → Option Text
  pub tie : ℕ → ℕ → ℕ → Bool

pub record World : Type 0 where
  pub env : Env
  pub calls : ℕ
  pub db : Database
  pub bucket : List Text

-- The errors that are no sentinel.
pub data Fault : Type 0 where
  unavailable unique_violation foreign_key_violation out_of_range bad_inet bad_jsonb : Fault
  bad_json bad_version bad_parameters bad_salt bad_key missing_role_keys bad_token : Fault

-- The sentinel errors of `store` (the two `row_` ones) and of `services`, and the rest.
pub data Error : Type 0 where
  row_not_found row_conflict : Error
  invalid_credentials invalid_refresh user_not_active user_not_found : Error
  username_taken email_taken already_installed : Error
  validation : Text → Error
  not_found group_not_found thread_not_found post_not_found attachment_not_found : Error
  forbidden invalid_input conflict thread_locked not_empty file_too_large unsupported_type : Error
  failure : Fault → Error

pub data Outcome {ℓ} (A : Type ℓ) : Type ℓ where
  ok : A → World → Outcome A
  err : Error → World → Outcome A

-- An action ends with a value or an error, and what it wrote before an error stays written.
abbrev pub M {ℓ} : Type ℓ → Type ℓ
M A = World → Outcome A

abbrev pub final {ℓ} : {A : Type ℓ} → Outcome A → World
final (ok a w) = w
final (err e w) = w

module _ {ℓ} {A : Type ℓ} where
  abbrev pub pure : A → M A
  pure a w = ok a w

  abbrev pub raise : Error → M A
  raise e w = err e w

  abbrev pub resume : (Error → M A) → Outcome A → Outcome A
  resume f (ok a w) = ok a w
  resume f (err e w) = f e w

  -- `if err != nil { … }` with a translation of the error.
  abbrev pub handle : M A → (Error → M A) → M A
  handle m f w = resume f (m w)

  -- `_ = m`
  abbrev pub settled : Outcome A → Outcome (Unit {0})
  settled (ok a w) = ok tt w
  settled (err e w) = ok tt w

  abbrev pub ignore : M A → M (Unit {0})
  ignore m w = settled (m w)

module _ {ℓ κ} {A : Type ℓ} {B : Type κ} where
  abbrev pub continue : (A → M B) → Outcome A → Outcome B
  continue f (ok a w) = f a w
  continue f (err e w) = err e w

  infixl 5 ◌>>=◌
  abbrev pub ◌>>=◌ : M A → (A → M B) → M B
  ◌>>=◌ m f w = continue f (m w)

infixl 5 ◌>>◌
abbrev pub ◌>>◌ {ℓ} : {B : Type ℓ} → M (Unit {0}) → M B → M B
m >> k = m >>= λ _. k

-- `if b { return e }`
abbrev pub refuse_if : Bool → Error → M (Unit {0})
refuse_if true e = raise e
refuse_if false e = pure tt

abbrev pub is_not_found : Error → Bool
is_not_found row_not_found = true
is_not_found _ = false

abbrev pub is_conflict : Error → Bool
is_conflict row_conflict = true
is_conflict _ = false

-- `errors.Is(err, store.ErrNotFound)` becomes `e`, any other error is passed on.
abbrev pub missing_as {ℓ} : {A : Type ℓ} → Error → Error → M A
missing_as e e' = raise (if is_not_found e' then e else e')

-- `errors.Is(err, store.ErrConflict)` becomes `e`.
abbrev pub conflict_as {ℓ} : {A : Type ℓ} → Error → Error → M A
conflict_as e e' = raise (if is_conflict e' then e else e')

-- The next call to the outside.
abbrev pub next : World → World
next w = record w { calls = suc w.calls }

-- What one statement reads of the outside: the time, the UUID that a default draws, the order in
-- which it scans rows, and the functions of the server.
pub record Stamp : Type 0 where
  pub now : ℕ
  pub uuid : ℕ
  pub lower : Text → Text
  pub before : Text → Text → Bool
  pub inet_text : Text → Option Text
  pub jsonb : Text → Option Text
  pub tie : ℕ → ℕ → Bool

abbrev pub stamp : World → Stamp
stamp w = record {
  now = w.env.clock w.calls;
  uuid = w.env.uuid w.calls;
  lower = w.env.lower;
  before = w.env.before;
  inet_text = w.env.inet_text;
  jsonb = w.env.jsonb;
  tie = w.env.tie w.calls;
}

-- The rows in the order in which a statement comes upon them: whatever order `tie` says.
unfoldable pub scanned {ℓ} : {A : Type ℓ} → (A → ℕ) → Stamp → List A → List A
scanned id st xs = order_rows (λ a b. st.tie (id a) (id b)) xs

-- A statement that fails changes nothing.
pub data Reply {ℓ} (A : Type ℓ) : Type ℓ where
  rows : A → Database → Reply A
  fault : Fault → Reply A

abbrev pub Sql {ℓ} : Type ℓ → Type ℓ
Sql A = Stamp → Database → Reply A

module _ {ℓ} {A : Type ℓ} where
  abbrev pub settle : World → Reply A → Outcome A
  settle w (rows a d) = ok a (record w { db = d })
  settle w (fault f) = err (failure f) w

  -- Exec, Query and QueryRow of the pool or of a transaction.
  unfoldable pub statement : Sql A → M A
  statement q w =
      if w.env.outage w.calls
      then err (failure unavailable) (next w)
      else settle (next w) (q (stamp w) w.db)

  abbrev pub commit : Database → Outcome A → Outcome A
  commit before (err e w) = err e (record w { db = before })
  commit before (ok a w) =
      if w.env.outage w.calls
      then err (failure unavailable) (record w { calls = suc w.calls; db = before })
      else ok a (next w)

  -- Begin, the body, and Commit; the deferred Rollback undoes a body that failed.
  unfoldable pub transaction : M A → M A
  transaction m w =
      if w.env.outage w.calls then err (failure unavailable) (next w) else commit w.db (m (next w))

-- `time.Now()`
unfoldable pub time_now : M ℕ
time_now w = ok (w.env.clock w.calls) (next w)

-- rand.Read of n bytes.
unfoldable pub read_random : ℕ → M (List ℕ)
read_random n w =
    if w.env.outage w.calls
    then err (failure unavailable) (next w)
    else ok (w.env.random w.calls n) (next w)

-- uuid.NewString, of which no failure is handled.
unfoldable pub new_uuid : M ℕ
new_uuid w = ok (w.env.uuid w.calls) (next w)
