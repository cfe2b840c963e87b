-- ===== src/Access/Errors.antt =====
-- The errors that renaming a group ends with.
use masonic_core.Prelude.{
  ℕ, ◌≡◌, refl, ap, ◌∙◌, ◌⊎◌, inl, inr, Bool, true, false, not, Option, none, some, Bool-cases,
}
use masonic_core.Models.{Group, NewGroup}
use masonic_core.World.{
  World, Fault, unavailable, Error, row_not_found, group_not_found, invalid_input, failure, Outcome,
  ok, err, M, raise, resume, handle, continue, refuse_if, next, stamp, Reply, rows, fault, Sql,
  settle, statement,
}
use masonic_core.Store.Group
use masonic_core.Services.Group as GroupService
use masonic_core.Services.Group.{update_error, is_acceptable}

module _ {ℓ} {A : Type ℓ} where
  settle-eq-err :
      (w : World) (r : Reply A) (e : Error) (w' : World)
      → settle w r ≡ err e w'
      → (f : Fault) × (e ≡ failure f) × (w' ≡ w)
  settle-eq-err w (rows a d) e w' h = cc
  settle-eq-err w (fault f) e w' h = (f, cc, cc)

  -- A statement that fails has changed nothing.
  statement-eq-err :
      (q : Sql A) (w : World) (e : Error) (w' : World)
      → statement q w ≡ err e w'
      → (f : Fault) × (e ≡ failure f) × (w' ≡ next w)
  unfolding statement
  statement-eq-err q w e w' h = elim (Bool-cases (w.env.outage w.calls)) [
    | inl b ↦ (unavailable, cc (rw b at h), cc (rw b at h))
    | inr b ↦ settle-eq-err (next w) (q (stamp w) w.db) e w' (rw b at h)
  ]

-- A block that fails failed in its first step, or past it.
continue-eq-err {ℓ κ} :
    {A : Type ℓ} {B : Type κ} (r : Outcome A) (f : A → M B) (e : Error) (w' : World)
    → continue f r ≡ err e w'
    → (r ≡ err e w') ⊎ ((a : A) × (v : World) × (r ≡ ok a v) × (f a v ≡ err e w'))
continue-eq-err (ok a v) f e w' h = inr (a, v, refl, h)
continue-eq-err (err x v) f e w' h = inl cc

resume-eq-err {ℓ} :
    {A : Type ℓ} (r : Outcome A) (g : Error → Error) (e : Error) (w' : World)
    → resume (λ x. raise (g x)) r ≡ err e w'
    → (x : Error) × (r ≡ err x w') × (e ≡ g x)
resume-eq-err (ok a v) g e w' h = cc
resume-eq-err (err x v) g e w' h = (x, cc, cc)

refuse_if-eq-err :
    (b : Bool) (x e : Error) (w w' : World) → refuse_if b x w ≡ err e w' → (e ≡ x) × (b ≡ true)
refuse_if-eq-err true x e w w' h = (cc, refl)
refuse_if-eq-err false x e w w' h = cc

not-true : (b : Bool) → not b ≡ true → b ≡ false
not-true true h = cc
not-true false h = refl

scan_group-eq-err :
    (o : Option Group) (e : Error) (w w' : World)
    → Group.scan_group o w ≡ err e w'
    → e ≡ row_not_found
unfolding Group.scan_group
scan_group-eq-err none e w w' h = cc
scan_group-eq-err (some g) e w w' h = cc

store_update-eq-err :
    (id : ℕ) (g : NewGroup) (w : World) (e : Error) (w' : World)
    → Group.update id g w ≡ err e w'
    → (e ≡ row_not_found) ⊎ ((f : Fault) × (e ≡ failure f))
unfolding Group.update
store_update-eq-err id g w e w' h =
    elim (continue-eq-err (statement (Group.update_group id g) w) Group.scan_group e w' h) [
      | inl k ↦ let (f, is, _) = statement-eq-err (Group.update_group id g) w e w' k in inr (f, is)
      | inr (o, v, _, k) ↦ inl (scan_group-eq-err o e v w' k)
    ]

-- Changing a group that fails ends with one of three errors: the input is not valid, there is no such
-- group, or the failure of the statement as it is, of a name or a slug that is taken too. It never
-- ends with the conflict that the service translates.
pub update_group-errors :
    (id : ℕ) (g : NewGroup) (w : World) (e : Error) (w' : World)
    → GroupService.update id g w ≡ err e w'
    → ((e ≡ invalid_input) × (is_acceptable g ≡ false))
      ⊎ (e ≡ group_not_found)
      ⊎ ((f : Fault) × (e ≡ failure f))
unfolding GroupService.update
update_group-errors id g w e w' h =
    elim (continue-eq-err (refuse_if (not (is_acceptable g)) invalid_input w)
      (λ _. handle (Group.update id g) (λ x. raise (update_error x))) e w' h) [
        | inl k ↦
            let (is, bad) = refuse_if-eq-err (not (is_acceptable g)) invalid_input e w w' k in
            inl (is, not-true (is_acceptable g) bad)
        | inr (_, v, _, k) ↦
            let (x, k2, is) = resume-eq-err (Group.update id g v) update_error e w' k in
            elim (store_update-eq-err id g v x w' k2) [
              | inl r ↦ inr (inl (is ∙ ap update_error r))
              | inr (f, r) ↦ inr (inr (f, is ∙ ap update_error r))
            ]
      ]
