-- ===== src/Storage.antt =====
-- internal/storage: the keys of stored objects, and the bucket as the list of the keys that it holds.
use masonic_core.Prelude.{
  ℕ, suc, not, ◌||◌, any_row, ◌∷◌, ◌++◌, ltb, if◌then◌else◌, length, take, keep_rows,
}
use masonic_core.Text.{Text, text, text_eq, to_lower}
use masonic_core.World.{unavailable, failure, ok, err, M, pure, ◌>>=◌, next, new_uuid}
use masonic_core.Text.Paths.{ext}

-- extMaxLen
abbrev pub ext_max_len : ℕ
ext_max_len = 8

unfoldable pub sanitize_ext : Text → Text
sanitize_ext filename =
    let e = to_lower (ext filename) in if ltb ext_max_len (length e) then take ext_max_len e else e

-- "avatars/<user>/<uuid><ext>" and "attachments/<uuid><ext>"
unfoldable pub avatar_path : Text → Text → Text → Text
unfolding sanitize_ext
avatar_path user uuid filename =
    text "avatars" ++ (b'/' ∷ (user ++ (b'/' ∷ (uuid ++ sanitize_ext filename))))

unfoldable pub attachment_path : Text → Text → Text
unfolding sanitize_ext
attachment_path uuid filename = text "attachments" ++ (b'/' ∷ (uuid ++ sanitize_ext filename))

unfoldable pub avatar_key : ℕ → Text → M Text
unfolding avatar_path new_uuid
avatar_key user_id filename = do
  uuid ← new_uuid
  λ w. ok (avatar_path (w.env.uuid_text user_id) (w.env.uuid_text uuid) filename) w

unfoldable pub attachment_key : Text → M Text
unfolding attachment_path new_uuid
attachment_key filename = do
  uuid ← new_uuid
  λ w. ok (attachment_path (w.env.uuid_text uuid) filename) w

-- Upload; the bytes of the object and its content type are not kept.
unfoldable pub upload : Text → M (Unit {0})
upload key w =
    if w.env.outage w.calls
    then err (failure unavailable) (next w)
    else ok tt (record w { calls = suc w.calls; bucket = key ∷ w.bucket })

-- Remove; a missing object is no error.
unfoldable pub remove : Text → M (Unit {0})
remove key w =
    if w.env.outage w.calls
    then err (failure unavailable) (next w)
    else ok tt
        (record w { calls = suc w.calls; bucket = keep_rows (λ k. not (text_eq k key)) w.bucket })

-- Open, which makes no request yet.
unfoldable pub open_object : Text → M (Unit {0})
open_object key = pure tt

-- Stat of an opened object.
unfoldable pub stat_object : Text → M (Unit {0})
stat_object key w =
    if w.env.outage w.calls || not (any_row (λ k. text_eq k key) w.bucket)
    then err (failure unavailable) (next w)
    else ok tt (next w)
