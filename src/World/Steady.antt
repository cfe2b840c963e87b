-- ===== src/World/Steady.antt =====
-- Actions leave the outside as it is.
use masonic_core.Prelude.{◌≡◌, refl, ◌∙◌, inl, inr, Bool-cases}
use masonic_core.World.{
  World, Error, Outcome, ok, err, M, final, pure, raise, resume, handle, continue, ◌>>=◌, next,
  stamp, Reply, rows, fault, Sql, settle, statement,
}

pub record IsSteady {ℓ} {A : Type ℓ} (m : M A) : Type ℓ where
  pub at : (w : World) → (final (m w)).env ≡ w.env

module _ {ℓ} {A : Type ℓ} where
  settle_steady : (w : World) (r : Reply A) → (final (settle w r)).env ≡ w.env
  settle_steady w (rows a d) = refl
  settle_steady w (fault f) = refl

  pub IsSteady-pure : (a : A) → IsSteady (pure a)
  IsSteady-pure a = record { at = λ w. refl }

  pub IsSteady-raise : (e : Error) → IsSteady (raise {A = A} e)
  IsSteady-raise e = record { at = λ w. refl }

  pub IsSteady-statement : (q : Sql A) → IsSteady (statement q)
  unfolding statement
  IsSteady-statement q = record {
    at = λ w. elim (Bool-cases (w.env.outage w.calls)) [
      | inl e ↦ rw e refl
      | inr e ↦ rw e (settle_steady (next w) (q (stamp w) w.db))
    ];
  }

  resume_steady :
      (f : Error → M A) (r : Outcome A)
      → ((e : Error) → IsSteady (f e))
      → (final (resume f r)).env ≡ (final r).env
  resume_steady f (ok a w) k = refl
  resume_steady f (err e w) k = (k e).at w

  pub IsSteady-handle :
      (m : M A) (f : Error → M A)
      → IsSteady m
      → ((e : Error) → IsSteady (f e))
      → IsSteady (handle m f)
  IsSteady-handle m f km kf = record { at = λ w. resume_steady f (m w) kf ∙ km.at w }

module _ {ℓ κ} {A : Type ℓ} {B : Type κ} where
  continue_steady :
      (r : Outcome A) (f : A → M B)
      → ((a : A) → IsSteady (f a))
      → (final (continue f r)).env ≡ (final r).env
  continue_steady (ok a w) f k = (k a).at w
  continue_steady (err e w) f k = refl

  pub IsSteady-bind :
      (m : M A) (f : A → M B) → IsSteady m → ((a : A) → IsSteady (f a)) → IsSteady (m >>= f)
  IsSteady-bind m f km kf = record { at = λ w. continue_steady (m w) f kf ∙ km.at w }

pub ruleset steady_rules =
    (IsSteady-pure, IsSteady-raise, IsSteady-statement, IsSteady-handle, IsSteady-bind)
