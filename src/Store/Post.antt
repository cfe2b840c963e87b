-- ===== src/Store/Post.antt =====
-- internal/store/post.go
use masonic_core.Prelude.{
  ℕ, Bool, ◌&&◌, ◌||◌, not, Option, none, some, List, ◌∷◌, ltb, ◌==◌, if◌then◌else◌, find_row,
  any_row, keep_rows, count_rows, update_rows, order_rows, page, join_rows, bind_option,
}
use masonic_core.Text.{Text}
use masonic_core.Models.{User, Post, PostSummary, NewPost}
use masonic_core.World.{
  unique_violation, foreign_key_violation, row_not_found, M, pure, raise, ◌>>=◌, refuse_if, Stamp,
  scanned, rows, fault, Sql, statement,
}
use masonic_core.Store.Cascade.{has_user, has_thread, delete_posts}

unfoldable pub new_row : Stamp → NewPost → Post
new_row st np = record {
  id = st.uuid;
  thread_id = np.thread_id;
  author_id = np.author_id;
  body = np.body;
  edited_by_id = none;
  edited_at = none;
  created_at = st.now;
  updated_at = st.now;
}

unfoldable pub insert_post : NewPost → Sql Post
unfolding new_row
insert_post np st d =
    if any_row (λ p. p.id == st.uuid) d.posts
    then fault unique_violation
    else if not (has_thread np.thread_id d) || not (has_user np.author_id d)
    then fault foreign_key_violation
    else rows (new_row st np) (record d { posts = new_row st np ∷ d.posts })

unfoldable pub scan_post : Option Post → M Post
scan_post none = raise row_not_found
scan_post (some p) = pure p

unfoldable pub scan_post_summary : Option PostSummary → M PostSummary
scan_post_summary none = raise row_not_found
scan_post_summary (some p) = pure p

unfoldable pub create : NewPost → M Post
unfolding insert_post
create np = statement (insert_post np)

-- The JOIN of postSummarySelect.
unfoldable pub summary : List User → Post → Option PostSummary
summary us p = elim (find_row (λ u. u.id == p.author_id) us) [
  | none ↦ none
  | some u ↦
      some (record { post = p; author_username = u.username; author_display = u.display_name })
]

unfoldable pub older : Post → Post → Bool
older a b = ltb a.created_at b.created_at

unfoldable pub select_posts : ℕ → ℕ → ℕ → Sql (List PostSummary)
unfolding summary older scanned
select_posts thread_id limit offset st d =
    let found = keep_rows (λ p. p.thread_id == thread_id) d.posts in
    rows
      (page limit offset
        (join_rows (summary d.users) (order_rows older (scanned (λ p. p.id) st found))))
      d

unfoldable pub count_posts : ℕ → Sql ℕ
count_posts thread_id st d = rows (count_rows (λ p. p.thread_id == thread_id) d.posts) d

unfoldable pub list_by_thread : ℕ → ℕ → ℕ → M (List PostSummary × ℕ)
unfolding select_posts count_posts
list_by_thread thread_id limit offset = do
  items ← statement (select_posts thread_id limit offset)
  total ← statement (count_posts thread_id)
  pure (items, total)

unfoldable pub select_post : ℕ → Sql (Option Post)
select_post id st d = rows (find_row (λ p. p.id == id) d.posts) d

unfoldable pub get_by_id : ℕ → M Post
unfolding select_post scan_post
get_by_id id = do row ← statement (select_post id); scan_post row

unfoldable pub select_summary : ℕ → Sql (Option PostSummary)
unfolding summary
select_summary id st d = rows (bind_option (find_row (λ p. p.id == id) d.posts) (summary d.users)) d

unfoldable pub summary_by_id : ℕ → M PostSummary
unfolding select_summary scan_post_summary
summary_by_id id = do row ← statement (select_summary id); scan_post_summary row

-- The columns that UpdateBody sets.
unfoldable pub edited : Text → ℕ → Stamp → Post → Post
edited body editor_id st p = record p {
  body = body;
  edited_by_id = some editor_id;
  edited_at = some st.now;
  updated_at = st.now;
}

-- posts.edited_by_id refers to a user.
unfoldable pub update_post : ℕ → Text → ℕ → Sql (Option Post)
unfolding edited
update_post id body editor_id st d =
    if any_row (λ p. p.id == id) d.posts && not (has_user editor_id d)
    then fault foreign_key_violation
    else let posts = update_rows (λ p. p.id == id) (edited body editor_id st) d.posts in
      rows (find_row (λ p. p.id == id) posts) (record d { posts = posts })

unfoldable pub update_body : ℕ → Text → ℕ → M Post
unfolding update_post scan_post
update_body id body editor_id = do row ← statement (update_post id body editor_id); scan_post row

unfoldable pub delete_row : ℕ → Sql ℕ
delete_row id st d = rows (count_rows (λ p. p.id == id) d.posts) (delete_posts (λ p. p.id == id) d)

unfoldable pub delete : ℕ → M (Unit {0})
unfolding delete_row
delete id = do n ← statement (delete_row id); refuse_if (n == 0) row_not_found
