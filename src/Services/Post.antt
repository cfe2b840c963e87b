-- ===== src/Services/Post.antt =====
-- internal/services/post.go
use masonic_core.Prelude.{ℕ, ◌&&◌, not, List, ◌==◌}
use masonic_core.Text.{Text}
use masonic_core.Models.{PostSummary}
use masonic_core.World.{
  thread_not_found, post_not_found, forbidden, invalid_input, thread_locked, M, handle, ◌>>=◌, ◌>>◌,
  refuse_if, missing_as,
}
use masonic_core.Store.Thread
use masonic_core.Store.Post
use masonic_core.Services.Roles.{is_moderator}
use masonic_core.Services.Thread.{is_body}

unfoldable pub list_by_thread : ℕ → ℕ → ℕ → M (List PostSummary × ℕ)
list_by_thread thread_id limit offset = do
  _ ← handle (Thread.get_by_id thread_id) (missing_as thread_not_found)
  Post.list_by_thread thread_id limit offset

unfoldable pub create : ℕ → ℕ → Text → M PostSummary
create thread_id author_id body = do
  th ← handle (Thread.get_by_id thread_id) (missing_as thread_not_found)
  refuse_if th.locked thread_locked
  refuse_if (not (is_body body)) invalid_input
  p ← Post.create (record { thread_id = thread_id; author_id = author_id; body = body })
  Thread.bump_post thread_id p.created_at
  Post.summary_by_id p.id

unfoldable pub update : ℕ → ℕ → Text → M PostSummary
update id author_id body = do
  p ← handle (Post.get_by_id id) (missing_as post_not_found)
  refuse_if (not (p.author_id == author_id)) forbidden
  refuse_if (not (is_body body)) invalid_input
  _ ← handle (Post.update_body id body author_id) (missing_as post_not_found)
  Post.summary_by_id id

unfoldable pub delete : ℕ → ℕ → List Text → M (Unit {0})
delete id caller_id roles = do
  p ← handle (Post.get_by_id id) (missing_as post_not_found)
  refuse_if (not (p.author_id == caller_id) && not (is_moderator roles)) forbidden
  handle (Post.delete id) (missing_as post_not_found)
  Thread.recalc_stats p.thread_id
