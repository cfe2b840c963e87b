-- ===== src/Access/Media.antt =====
-- Who may delete an attachment.
use masonic_core.Prelude.{
  ℕ, ◌≡◌, sym, ap, ◌∙◌, ◌⊎◌, inl, inr, true, false, not, some, List, ◌==◌, Bool-cases, find_row,
  any_row, keep_rows,
}
use masonic_core.Text.{Text, text_eq}
use masonic_core.Models.{Attachment}
use masonic_core.World.{Database, World, row_not_found, forbidden, ok}
use masonic_core.Storage.{remove}
use masonic_core.Store.Attachment
use masonic_core.Services.Roles.{is_moderator}
use masonic_core.Services.Media as MediaService
use masonic_core.World.Rules.{ok-inj, continue-eq-ok, refuse_if-eq-ok, statement-eq-ok}
use masonic_core.Access.Reads.{attachment-eq-ok, allowed, any-keep_none}

delete_row-eq-ok :
    (id : ℕ) (w : World) (x : Unit {0}) (w' : World)
    → Attachment.delete id w ≡ ok x w'
    → (any_row (λ a. a.id == id) w'.db.attachments ≡ false) × (w'.bucket ≡ w.bucket)
unfolding Attachment.delete Attachment.delete_row
delete_row-eq-ok id w x w' h =
    let (n, v, e, g) = continue-eq-ok _ _ x w' h in
    let (d, q, same) = statement-eq-ok (Attachment.delete_row id) w n v e in
    let (_, last) = refuse_if-eq-ok (n == 0) row_not_found v x w' g in
    let moved : record w.db { attachments = keep_rows (λ a. not (a.id == id)) w.db.attachments }
        ≡ d =
      cc in
    (
      ap (λ (u : World). any_row (λ (a : Attachment). a.id == id) u.db.attachments) (last ∙ same)
          ∙ ap (λ (b : Database). any_row (λ (a : Attachment). a.id == id) b.attachments)
              (sym moved)
          ∙ any-keep_none (λ a. a.id == id) w.db.attachments,
      ap (λ (u : World). u.bucket) (last ∙ same),
    )

remove-eq-ok :
    (key : Text) (w : World) (x : Unit {0}) (w' : World)
    → remove key w ≡ ok x w'
    → any_row (λ k. text_eq k key) w'.bucket ≡ false
unfolding remove
remove-eq-ok key w x w' h = elim (Bool-cases (w.env.outage w.calls)) [
  | inl e ↦ cc (rw e at h)
  | inr e ↦
      let (_, same) = ok-inj tt x _ w' (rw e at h) in
      ap (λ (u : World). any_row (λ k. text_eq k key) u.bucket) (sym same)
      ∙ any-keep_none (λ k. text_eq k key) w.bucket
]

-- An attachment that a call of the service deleted was there, and the caller is its owner or a
-- moderator. Afterwards neither its row nor its object in the bucket is left.
pub delete_attachment-eq-ok :
    (id caller_id : ℕ) (roles : List Text) (w : World) (x : Unit {0}) (w' : World)
    → MediaService.delete_attachment id caller_id roles w ≡ ok x w'
    → (a : Attachment) × (find_row (λ r. r.id == id) w.db.attachments ≡ some a)
      × ((a.owner_id ≡ caller_id) ⊎ (is_moderator roles ≡ true))
      × (any_row (λ r. r.id == id) w'.db.attachments ≡ false)
      × (any_row (λ k. text_eq k a.storage_key) w'.bucket ≡ false)
unfolding MediaService.delete_attachment
delete_attachment-eq-ok id caller_id roles w x w' h =
    let (a, v, e, g) = continue-eq-ok _ _ x w' h in
    let (is, _) = attachment-eq-ok id _ w a v e in
    let (_, v2, e2, g2) = continue-eq-ok _ _ x w' g in
    let (may, _) = refuse_if-eq-ok _ forbidden v _ v2 e2 in
    let (u, v3, e3, g3) = continue-eq-ok _ _ x w' g2 in
    let erased = remove-eq-ok a.storage_key v2 u v3 e3 in
    let (gone, bucket) = delete_row-eq-ok id v3 x w' g3 in
    (
      a,
      is,
      allowed a.owner_id caller_id (is_moderator roles) may,
      gone,
      ap (λ (b : List Text). any_row (λ k. text_eq k a.storage_key) b) bucket ∙ erased,
    )
