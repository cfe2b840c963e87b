-- ===== src/Store/Cascade.antt =====
-- The foreign keys of migrations/00001 to 00005: what a reference needs, and what a deletion takes
-- with it.
use masonic_core.Prelude.{
  ℕ, Bool, true, ◌&&◌, not, Option, none, some, map, ◌==◌, if◌then◌else◌, any_row, keep_rows,
  has_value,
}
use masonic_core.Models.{Group, Thread, Post, Attachment}
use masonic_core.World.{Database}

-- A row that a reference needs.
unfoldable pub has_user : ℕ → Database → Bool
has_user id d = any_row (λ u. u.id == id) d.users

unfoldable pub has_group : ℕ → Database → Bool
has_group id d = any_row (λ g. g.id == id) d.groups

unfoldable pub has_thread : ℕ → Database → Bool
has_thread id d = any_row (λ t. t.id == id) d.threads

unfoldable pub has_post : ℕ → Database → Bool
has_post id d = any_row (λ p. p.id == id) d.posts

-- A reference that may be null.
abbrev pub null_or : (ℕ → Bool) → Option ℕ → Bool
null_or test none = true
null_or test (some id) = test id

-- ON DELETE SET NULL of attachments.post_id.
unfoldable pub forget_post : (ℕ → Bool) → Attachment → Attachment
forget_post gone a = elim a.post_id [
  | none ↦ a
  | some id ↦ if gone id then record a { post_id = none } else a
]

-- DELETE of the posts that pass the test.
unfoldable pub delete_posts : (Post → Bool) → Database → Database
unfolding forget_post
delete_posts p d = record d {
  posts = keep_rows (λ q. not (p q)) d.posts;
  attachments = map (forget_post (λ id. any_row (λ q. p q && q.id == id) d.posts)) d.attachments;
}

-- DELETE of threads: posts.thread_id is ON DELETE CASCADE.
unfoldable pub delete_threads : (Thread → Bool) → Database → Database
delete_threads p d =
    let d' = delete_posts (λ q. any_row (λ t. p t && t.id == q.thread_id) d.threads) d in
    record d' { threads = keep_rows (λ t. not (p t)) d.threads }

-- ON DELETE SET NULL of groups.parent_id.
unfoldable pub forget_parent : ℕ → Group → Group
forget_parent id g = if has_value g.parent_id id then record g { parent_id = none } else g

-- DELETE of one group: threads.group_id is ON DELETE CASCADE.
unfoldable pub delete_group : ℕ → Database → Database
unfolding forget_parent
delete_group id d =
    let d' = delete_threads (λ t. t.group_id == id) d in
    record d' { groups = map (forget_parent id) (keep_rows (λ g. not (g.id == id)) d.groups) }
