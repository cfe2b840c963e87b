-- ===== src/Store/Attachment.antt =====
-- internal/store/attachment.go
use masonic_core.Prelude.{
  ℕ, Bool, ◌&&◌, ◌||◌, not, Option, none, some, List, ◌∷◌, ltb, ◌==◌, if◌then◌else◌, length,
  find_row, any_row, keep_rows, count_rows, order_rows, page, join_rows,
}
use masonic_core.Text.{text_eq}
use masonic_core.Models.{User, Attachment, NewAttachment, AttachmentWithOwner}
use masonic_core.World.{
  unique_violation, foreign_key_violation, row_not_found, M, pure, raise, ◌>>=◌, refuse_if, Stamp,
  rows, fault, Sql, statement,
}
use masonic_core.Store.Cascade.{has_user, has_post, null_or}

new_row : Stamp → NewAttachment → Attachment
new_row st a = record {
  id = st.uuid;
  owner_id = a.owner_id;
  post_id = a.post_id;
  filename = a.filename;
  content_type = a.content_type;
  size_bytes = a.size_bytes;
  storage_key = a.storage_key;
  public_url = a.public_url;
  created_at = st.now;
  updated_at = st.now;
}

unfoldable pub insert_attachment : NewAttachment → Sql Attachment
unfolding new_row
insert_attachment a st d =
    if any_row (λ r. r.id == st.uuid || text_eq r.storage_key a.storage_key) d.attachments
    then fault unique_violation
    else if not (has_user a.owner_id d) || not (null_or (λ id. has_post id d) a.post_id)
    then fault foreign_key_violation
    else rows (new_row st a) (record d { attachments = new_row st a ∷ d.attachments })

unfoldable pub create : NewAttachment → M Attachment
unfolding insert_attachment
create a = statement (insert_attachment a)

unfoldable pub scan_attachment : Option Attachment → M Attachment
scan_attachment none = raise row_not_found
scan_attachment (some a) = pure a

unfoldable pub select_attachment : ℕ → Sql (Option Attachment)
select_attachment id st d = rows (find_row (λ a. a.id == id) d.attachments) d

unfoldable pub get_by_id : ℕ → M Attachment
unfolding select_attachment scan_attachment
get_by_id id = do row ← statement (select_attachment id); scan_attachment row

-- ORDER BY created_at DESC, id
newer : Attachment → Attachment → Bool
newer a b = ltb b.created_at a.created_at || a.created_at == b.created_at && ltb a.id b.id

-- The JOIN with the owner.
with_owner : List User → Attachment → Option AttachmentWithOwner
with_owner us a = elim (find_row (λ u. u.id == a.owner_id) us) [
  | none ↦ none
  | some u ↦ some (record { attachment = a; owner_username = u.username })
]

unfoldable pub select_attachments : ℕ → ℕ → Sql (List AttachmentWithOwner)
unfolding newer with_owner
select_attachments limit offset st d =
    rows (page limit offset (join_rows (with_owner d.users) (order_rows newer d.attachments))) d

unfoldable pub count_attachments : Sql ℕ
count_attachments st d = rows (length d.attachments) d

unfoldable pub list : ℕ → ℕ → M (List AttachmentWithOwner × ℕ)
unfolding select_attachments count_attachments
list limit offset = do
  total ← statement count_attachments
  items ← statement (select_attachments limit offset)
  pure (items, total)

unfoldable pub delete_row : ℕ → Sql ℕ
delete_row id st d =
    rows (count_rows (λ a. a.id == id) d.attachments)
      (record d { attachments = keep_rows (λ a. not (a.id == id)) d.attachments })

unfoldable pub delete : ℕ → M (Unit {0})
unfolding delete_row
delete id = do n ← statement (delete_row id); refuse_if (n == 0) row_not_found
