-- ===== src/Store/Thread.antt =====
-- internal/store/thread.go
use masonic_core.Prelude.{
  int4_max, ℕ, ◌+◌, Bool, true, false, ◌&&◌, ◌||◌, not, Option, none, some, List, [], ◌∷◌, ltb, leb,
  ◌==◌, if◌then◌else◌, find_row, any_row, keep_rows, count_rows, update_rows, order_rows, page,
  join_rows, bind_option,
}
use masonic_core.Text.{Text}
use masonic_core.Models.{User, Thread, ThreadSummary, NewThread, Post, NewPost}
use masonic_core.World.{
  Database, unique_violation, foreign_key_violation, out_of_range, row_not_found, M, pure, raise,
  ◌>>=◌, ◌>>◌, refuse_if, Stamp, scanned, rows, fault, Sql, statement, transaction,
}
use masonic_core.Store.Cascade.{has_user, has_group, delete_threads}
use masonic_core.Store.Post.{insert_post}

-- The largest value of an `integer` column.

new_row : Stamp → NewThread → Thread
new_row st nt = record {
  id = st.uuid;
  group_id = nt.group_id;
  author_id = nt.author_id;
  title = nt.title;
  pinned = false;
  locked = false;
  views = 0;
  post_count = 0;
  last_post_at = none;
  created_at = st.now;
  updated_at = st.now;
}

unfoldable pub insert_thread : NewThread → Sql Thread
unfolding new_row
insert_thread nt st d =
    if any_row (λ t. t.id == st.uuid) d.threads
    then fault unique_violation
    else if not (has_group nt.group_id d) || not (has_user nt.author_id d)
    then fault foreign_key_violation
    else rows (new_row st nt) (record d { threads = new_row st nt ∷ d.threads })

-- UPDATE of one thread; an `integer` that would pass its range is an error.
unfoldable pub update_thread : ℕ → (Thread → Bool) → (Stamp → Thread → Thread) → Sql (Option Thread)
update_thread id overflows f st d =
    if any_row (λ t. t.id == id && overflows t) d.threads
    then fault out_of_range
    else let threads = update_rows (λ t. t.id == id) (f st) d.threads in
      rows (find_row (λ t. t.id == id) threads) (record d { threads = threads })

-- post_count = post_count + 1, last_post_at = at
unfoldable pub bumped : ℕ → Stamp → Thread → Thread
bumped at st t = record t {
  post_count = t.post_count + 1;
  last_post_at = some at;
  updated_at = st.now;
}

abbrev pub posts_full : Thread → Bool
posts_full t = leb int4_max t.post_count

unfoldable pub bump_post : ℕ → ℕ → M (Unit {0})
unfolding update_thread bumped
bump_post id at = do _ ← statement (update_thread id posts_full (bumped at)); pure tt

-- The body of the transaction of Create.
unfoldable pub create_body : NewThread → NewPost → M Thread
unfolding insert_thread insert_post bump_post
create_body nt first = do
  th ← statement (insert_thread nt)
  post ← statement (insert_post (record first { thread_id = th.id }))
  bump_post th.id post.created_at
  pure (record th { post_count = 1; last_post_at = some post.created_at })

unfoldable pub create : NewThread → NewPost → M Thread
unfolding create_body
create nt first = transaction (create_body nt first)

-- The JOIN of threadSummarySelect; display_name is never NULL, so COALESCE takes it.
unfoldable pub summary : List User → Thread → Option ThreadSummary
summary us t = elim (find_row (λ u. u.id == t.author_id) us) [
  | none ↦ none
  | some u ↦
      some (record { thread = t; author_username = u.username; author_display = u.display_name })
]

-- last_post_at DESC NULLS LAST; `tie` decides between equal times.
later_post : Option ℕ → Option ℕ → Bool → Bool
later_post none none tie = tie
later_post none (some b) tie = false
later_post (some a) none tie = true
later_post (some a) (some b) tie = ltb b a || a == b && tie

-- ORDER BY pinned DESC, last_post_at DESC NULLS LAST, created_at DESC
unfoldable pub shown_before : Thread → Thread → Bool
unfolding later_post
shown_before a b =
    a.pinned && not b.pinned
    || not (b.pinned && not a.pinned)
      && later_post a.last_post_at b.last_post_at (ltb b.created_at a.created_at)

unfoldable pub select_threads : ℕ → ℕ → ℕ → Sql (List ThreadSummary)
unfolding summary shown_before scanned
select_threads group_id limit offset st d =
    let found = keep_rows (λ t. t.group_id == group_id) d.threads in
    rows
      (page limit offset
        (join_rows (summary d.users) (order_rows shown_before (scanned (λ t. t.id) st found))))
      d

unfoldable pub count_threads : ℕ → Sql ℕ
count_threads group_id st d = rows (count_rows (λ t. t.group_id == group_id) d.threads) d

unfoldable pub count_by_group : ℕ → M ℕ
unfolding count_threads
count_by_group group_id = statement (count_threads group_id)

unfoldable pub list_by_group : ℕ → ℕ → ℕ → M (List ThreadSummary × ℕ)
unfolding select_threads count_threads
list_by_group group_id limit offset = do
  items ← statement (select_threads group_id limit offset)
  total ← statement (count_threads group_id)
  pure (items, total)

unfoldable pub scan_thread : Option Thread → M Thread
scan_thread none = raise row_not_found
scan_thread (some t) = pure t

unfoldable pub scan_thread_summary : Option ThreadSummary → M ThreadSummary
scan_thread_summary none = raise row_not_found
scan_thread_summary (some t) = pure t

unfoldable pub select_thread : ℕ → Sql (Option Thread)
select_thread id st d = rows (find_row (λ t. t.id == id) d.threads) d

unfoldable pub get_by_id : ℕ → M Thread
unfolding select_thread scan_thread
get_by_id id = do row ← statement (select_thread id); scan_thread row

unfoldable pub select_summary : ℕ → Sql (Option ThreadSummary)
unfolding summary
select_summary id st d =
    rows (bind_option (find_row (λ t. t.id == id) d.threads) (summary d.users)) d

unfoldable pub summary_by_id : ℕ → M ThreadSummary
unfolding select_summary scan_thread_summary
summary_by_id id = do row ← statement (select_summary id); scan_thread_summary row

-- The columns that Update sets.
unfoldable pub edited : Text → Bool → Bool → Stamp → Thread → Thread
edited title pinned locked st t = record t {
  title = title;
  pinned = pinned;
  locked = locked;
  updated_at = st.now;
}

unfoldable pub update : ℕ → Text → Bool → Bool → M Thread
unfolding update_thread edited scan_thread
update id title pinned locked = do
  row ← statement (update_thread id (λ t. false) (edited title pinned locked))
  scan_thread row

unfoldable pub delete_row : ℕ → Sql ℕ
delete_row id st d =
    rows (count_rows (λ t. t.id == id) d.threads) (delete_threads (λ t. t.id == id) d)

unfoldable pub delete : ℕ → M (Unit {0})
unfolding delete_row
delete id = do n ← statement (delete_row id); refuse_if (n == 0) row_not_found

abbrev pub views_full : Thread → Bool
views_full t = leb int4_max t.views

unfoldable pub viewed : Stamp → Thread → Thread
viewed st t = record t { views = t.views + 1 }

unfoldable pub increment_views : ℕ → M (Unit {0})
unfolding update_thread viewed
increment_views id = do _ ← statement (update_thread id views_full viewed); pure tt

-- The latest time, NULL for none.
unfoldable pub max_time : List Post → Option ℕ
max_time [] = none
max_time (p ∷ ps) = elim (max_time ps) [
  | none ↦ some p.created_at
  | some t ↦ some (if ltb t p.created_at then p.created_at else t)
]

abbrev pub posts_of : ℕ → Database → List Post
posts_of id d = keep_rows (λ p. p.thread_id == id) d.posts

-- The columns that RecalcStats computes from the posts.
unfoldable pub recalculated : Database → Stamp → Thread → Thread
unfolding max_time
recalculated d st t = record t {
  post_count = count_rows (λ p. p.thread_id == t.id) d.posts;
  last_post_at = max_time (posts_of t.id d);
  updated_at = st.now;
}

unfoldable pub recalc : ℕ → Sql (Option Thread)
unfolding recalculated update_thread
recalc id st d =
    update_thread id (λ t. ltb int4_max (count_rows (λ p. p.thread_id == t.id) d.posts))
      (recalculated d) st d

unfoldable pub recalc_stats : ℕ → M (Unit {0})
unfolding recalc
recalc_stats id = do _ ← statement (recalc id); pure tt
