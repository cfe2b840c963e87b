-- ===== src/World/Rules.antt =====
-- Reading an action backwards from its success, and invariants of the tables, with one rule for each
-- way to build an action.
use masonic_core.Prelude.{suc, ◌≡◌, refl, subst, inl, inr, Bool, true, false, Bool-cases}
use masonic_core.Text.{Text}
use masonic_core.World.{
  Database, World, Error, Outcome, ok, err, M, final, pure, raise, resume, handle, settled, ignore,
  continue, ◌>>=◌, refuse_if, next, Stamp, stamp, Reply, rows, fault, Sql, settle, statement,
  commit, transaction, time_now, new_uuid,
}

module _ {ℓ κ} {A : Type ℓ} {B : Type κ} where
  -- A block that succeeds succeeded in its first step.
  pub continue-eq-ok :
      (r : Outcome A) (f : A → M B) (b : B) (w' : World)
      → continue f r ≡ ok b w'
      → (a : A) × (v : World) × (r ≡ ok a v) × (f a v ≡ ok b w')
  continue-eq-ok (ok a v) f b w' h = (a, v, refl, h)
  continue-eq-ok (err e v) f b w' h = cc

  pub bind-eq-ok :
      (m : M A) (f : A → M B) (w : World) (b : B) (w' : World)
      → (m >>= f) w ≡ ok b w'
      → (a : A) × (v : World) × (m w ≡ ok a v) × (f a v ≡ ok b w')
  bind-eq-ok m f w b w' h = continue-eq-ok (m w) f b w' h

module _ {ℓ} {A : Type ℓ} where
  -- A translation of errors passes success on.
  pub resume-eq-ok :
      (r : Outcome A) (g : Error → Error) (a : A) (w' : World)
      → resume (λ e. raise (g e)) r ≡ ok a w'
      → r ≡ ok a w'
  resume-eq-ok (ok b v) g a w' h = h
  resume-eq-ok (err e v) g a w' h = cc

  pub handle-eq-ok :
      (m : M A) (g : Error → Error) (w : World) (a : A) (w' : World)
      → handle m (λ e. raise (g e)) w ≡ ok a w'
      → m w ≡ ok a w'
  handle-eq-ok m g w a w' h = resume-eq-ok (m w) g a w' h

  settle-eq-ok :
      (w : World) (r : Reply A) (a : A) (w' : World)
      → settle w r ≡ ok a w'
      → (d : Database) × (r ≡ rows a d) × (w' ≡ record w { db = d })
  settle-eq-ok w (rows b d) a w' h = (d, cc, cc)
  settle-eq-ok w (fault f) a w' h = cc

  -- A statement that succeeds was not hit by an outage, and its rows are those of its SQL.
  pub statement-eq-ok :
      (q : Sql A) (w : World) (a : A) (w' : World)
      → statement q w ≡ ok a w'
      → (d : Database) × (q (stamp w) w.db ≡ rows a d)
        × (w' ≡ record w { calls = suc w.calls; db = d })
  unfolding statement
  statement-eq-ok q w a w' h = elim (Bool-cases (w.env.outage w.calls)) [
    | inl e ↦ cc (rw e at h)
    | inr e ↦ settle-eq-ok (next w) (q (stamp w) w.db) a w' (rw e at h)
  ]

-- A test that succeeds has let the action pass, and changes nothing.
pub refuse_if-eq-ok :
    (b : Bool) (e : Error) (w : World) (x : Unit {0}) (w' : World)
    → refuse_if b e w ≡ ok x w'
    → (b ≡ false) × (w' ≡ w)
refuse_if-eq-ok true e w x w' h = cc
refuse_if-eq-ok false e w x w' h = (refl, cc)

-- The tables satisfy `P` after the action, whether it succeeds or fails, if they did before.
pub record Keeps {ℓ} {A : Type ℓ} (P : Database → Type 0) (m : M A) : Type ℓ where
  pub at : (w : World) → P w.db → P (final (m w)).db

-- A statement that succeeds leaves tables that satisfy `P`.
pub record KeepsSql {ℓ} {A : Type ℓ} (P : Database → Type 0) (q : Sql A) : Type ℓ where
  pub at : (st : Stamp) (d : Database) (a : A) (d' : Database) → q st d ≡ rows a d' → P d → P d'

module _ {ℓ} {A : Type ℓ} (P : Database → Type 0) where
  settle_keeps :
      (w : World) (r : Reply A)
      → P w.db
      → ((a : A) (d' : Database) → r ≡ rows a d' → P d')
      → P (final (settle w r)).db
  settle_keeps w (rows a d) h k = k a d refl
  settle_keeps w (fault f) h k = h

  settled_keeps : (r : Outcome A) → P (final r).db → P (final (settled r)).db
  settled_keeps (ok a w) h = h
  settled_keeps (err e w) h = h

  commit_keeps : (d : Database) (r : Outcome A) → P d → P (final r).db → P (final (commit d r)).db
  commit_keeps d (err e w) before h = before
  commit_keeps d (ok a w) before h = elim (Bool-cases (w.env.outage w.calls)) [
    | inl e ↦ rw e before
    | inr e ↦ rw e h
  ]

  commit_keeps_ok :
      (d : Database) (r : Outcome A)
      → P d
      → ((a : A) (w' : World) → r ≡ ok a w' → P w'.db)
      → P (final (commit d r)).db
  commit_keeps_ok d (err e w) before h = before
  commit_keeps_ok d (ok a w) before h = elim (Bool-cases (w.env.outage w.calls)) [
    | inl e ↦ rw e before
    | inr e ↦ rw e (h a w refl)
  ]

module _ {ℓ} {A : Type ℓ} {P : Database → Type 0} where
  pub Keeps-pure : (a : A) → Keeps P (pure a)
  Keeps-pure a = record { at = λ w h. h }

  pub Keeps-raise : (e : Error) → Keeps P (raise {A = A} e)
  Keeps-raise e = record { at = λ w h. h }

  pub Keeps-statement : (q : Sql A) → KeepsSql P q → Keeps P (statement q)
  unfolding statement
  Keeps-statement q k = record {
    at = λ w h. elim (Bool-cases (w.env.outage w.calls)) [
      | inl e ↦ rw e h
      | inr e ↦
          rw e
            (settle_keeps P (next w) (q (stamp w) w.db) h (λ a d' r. k.at (stamp w) w.db a d' r h))
    ];
  }

  resume_keeps :
      (f : Error → M A) (r : Outcome A)
      → ((e : Error) → Keeps P (f e))
      → P (final r).db
      → P (final (resume f r)).db
  resume_keeps f (ok a w) kf h = h
  resume_keeps f (err e w) kf h = (kf e).at w h

  pub Keeps-handle :
      (m : M A) (f : Error → M A) → Keeps P m → ((e : Error) → Keeps P (f e)) → Keeps P (handle m f)
  Keeps-handle m f km kf = record { at = λ w h. resume_keeps f (m w) kf (km.at w h) }

  pub Keeps-ignore : (m : M A) → Keeps P m → Keeps P (ignore m)
  Keeps-ignore m km = record { at = λ w h. settled_keeps P (m w) (km.at w h) }

  -- A transaction that fails leaves the tables as they were before it.
  pub Keeps-transaction : (m : M A) → Keeps P m → Keeps P (transaction m)
  unfolding transaction
  Keeps-transaction m km = record {
    at = λ w h. elim (Bool-cases (w.env.outage w.calls)) [
      | inl e ↦ rw e h
      | inr e ↦ rw e (commit_keeps P w.db (m (next w)) h (km.at (next w) h))
    ];
  }

module _ {ℓ κ} {A : Type ℓ} {B : Type κ} {P : Database → Type 0} where
  continue_keeps :
      (r : Outcome A) (f : A → M B)
      → P (final r).db
      → ((a : A) → Keeps P (f a))
      → P (final (continue f r)).db
  continue_keeps (ok a w) f h kf = (kf a).at w h
  continue_keeps (err e w) f h kf = h

  pub Keeps-bind :
      (m : M A) (f : A → M B) → Keeps P m → ((a : A) → Keeps P (f a)) → Keeps P (m >>= f)
  Keeps-bind m f km kf = record { at = λ w h. continue_keeps (m w) f (km.at w h) kf }

module _ {P : Database → Type 0} where
  pub Keeps-refuse_if : (b : Bool) (e : Error) → Keeps P (refuse_if b e)
  Keeps-refuse_if true e = record { at = λ w h. h }
  Keeps-refuse_if false e = record { at = λ w h. h }

pub ruleset keeps_rules = (
  Keeps-pure, Keeps-raise, Keeps-statement, Keeps-handle, Keeps-ignore, Keeps-transaction,
  Keeps-bind, Keeps-refuse_if,
)

module _ {ℓ} {A : Type ℓ} {P : Database → Type 0} where
  -- A SELECT leaves the tables as they are.
  pub KeepsSql-read : (f : Stamp → Database → A) → KeepsSql P (λ st d. rows (f st d) d)
  KeepsSql-read f = record { at = λ st d a d' e h. let same : d ≡ d' = cc in subst P same h }

module _ {P : Database → Type 0} where
  pub Keeps-new_uuid : Keeps P new_uuid
  unfolding new_uuid
  Keeps-new_uuid = record { at = λ w h. h }

  pub Keeps-time_now : Keeps P time_now
  unfolding time_now
  Keeps-time_now = record { at = λ w h. h }

  -- An action that does not touch the tables.
  pub Keeps-value : (f : World → Text) → Keeps P (λ w. ok (f w) w)
  Keeps-value f = record { at = λ w h. h }

-- A SELECT that succeeds has read the tables as they are.
pub read-eq-ok {ℓ} :
    {A : Type ℓ} (f : Stamp → Database → A) (w : World) (a : A) (w' : World)
    → statement (λ st d. rows (f st d) d) w ≡ ok a w'
    → (f (stamp w) w.db ≡ a) × (w' ≡ next w)
read-eq-ok f w a w' h =
    let (d, e, same) = statement-eq-ok (λ st d. rows (f st d) d) w a w' h in (cc, cc)

pub ok-inj {ℓ} : {A : Type ℓ} (a b : A) (v w : World) → ok a v ≡ ok b w → (a ≡ b) × (v ≡ w)
ok-inj a b v w h = (cc, cc)

-- A transaction has to give the invariant back only where its body succeeds.
pub Keeps-transaction-ok {ℓ} :
    {A : Type ℓ} {P : Database → Type 0} (m : M A)
    → ((w : World) (a : A) (w' : World) → m w ≡ ok a w' → P w.db → P w'.db)
    → Keeps P (transaction m)
unfolding transaction
Keeps-transaction-ok {P = P} m k = record {
  at = λ w h. elim (Bool-cases (w.env.outage w.calls)) [
    | inl e ↦ rw e h
    | inr e ↦ rw e (commit_keeps_ok P w.db (m (next w)) h (λ a w' q. k (next w) a w' q h))
  ];
}
