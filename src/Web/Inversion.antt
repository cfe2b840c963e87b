-- ===== src/Web/Inversion.antt =====
-- Reading a handler backwards from its answer.
use masonic_core.Prelude.{◌≡◌, refl, ap, ◌≢◌, Bool, true, false, Option, none, some}
use masonic_core.World.{World, Error, Outcome, ok, err}
use masonic_core.Http.{Response, Site, Action}
use masonic_core.Http.Answers.{answer, or_refuse, stop_if}

module _ {ℓ} {A : Type ℓ} where
  -- An answer that the error path does not give comes from the other path.
  pub answer-eq :
      (bad : Error → Action) (good : A → Action) (s : Site) (o : Outcome A) (x : Response)
      (s' : Site)
      → ((e : Error) (t : Site) → (bad e t).0 ≢ x)
      → answer bad good s o ≡ (x, s')
      → (a : A) × (w : World) × (o ≡ ok a w) × (good a (record s { world = w }) ≡ (x, s'))
  answer-eq bad good s (ok a w) x s' n h = (a, w, refl, h)
  answer-eq bad good s (err e w) x s' n h =
      absurd (n e (record s { world = w }) (ap (λ (p : Response × Site). p.0) h))

  pub or_refuse-eq :
      (o : Option A) (r : Response) (good : A → Action) (s : Site) (x : Response) (s' : Site)
      → r ≢ x
      → or_refuse o r good s ≡ (x, s')
      → (a : A) × (o ≡ some a) × (good a s ≡ (x, s'))
  or_refuse-eq none r good s x s' n h = absurd (n (ap (λ (p : Response × Site). p.0) h))
  or_refuse-eq (some a) r good s x s' n h = (a, refl, h)

pub stop_if-eq :
    (b : Bool) (r : Response) (a : Action) (s : Site) (x : Response) (s' : Site)
    → r ≢ x
    → stop_if b r a s ≡ (x, s')
    → (b ≡ false) × (a s ≡ (x, s'))
stop_if-eq true r a s x s' n h = absurd (n (ap (λ (p : Response × Site). p.0) h))
stop_if-eq false r a s x s' n h = (refl, h)
